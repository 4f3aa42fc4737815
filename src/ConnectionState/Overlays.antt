-- ===== src/ConnectionState/Overlays.antt =====
-- The overlay slots of ConnectionState against one map in the order of insertion.
use pairion_client.Base.{
  ◌≡◌, refl, String, true, false, List, [], ◌∷◌, ◌++◌, Option, some, arith, holds, remove_all,
  IsDistinct, holds-append, append-IsDistinct, holds-remove_all, remove_all-IsDistinct, assign,
  erase, lookup, lookup-assign, lookup-erase, is_some, eq_iff,
}
use pairion_client.Qt.{Qt}
use pairion_client.ConnectionState.{
  ConnectionState, new, set_status, set_session_id, set_server_version, set_reconnect_attempts,
  append_log, set_transcript_partial, set_transcript_final, set_agent_state, set_voice_state,
  append_llm_token, clear_llm_response, set_background_context, set_map_focus, clear_map_focus,
  set_background, set_active_background_id, add_overlay, remove_overlay, clear_overlays,
  set_scene_data, clear_scene_data, set_scene_transition, set_pipeline_health,
}
use pairion_client.ConnectionState.Slots.{
  Slot, overlay_add, overlay_remove, overlays_clear, call, calls,
}

-- No overlay is stacked twice, and just the stacked overlays have parameters.
pub record HasStack {q : Qt} (c : ConnectionState q) : Type 0 where
  pub distinct : IsDistinct c.props.active_overlay_ids
  pub keyed :
      (k : String) → is_some (lookup k c.props.overlay_params) ≡ holds c.props.active_overlay_ids k

-- The stack as one list: each overlay with its parameters, oldest first.
module _ {ℓ} {M : Type ℓ} where
  abbrev pub stack : List String → List (String × M) → List (String × Option M)
  stack [] params = []
  stack (x ∷ xs) params = (x, lookup x params) ∷ stack xs params

  stack-assign_absent :
      (id : String) (v : M) (ids : List String) (params : List (String × M))
      → holds ids id ≡ false
      → stack ids (assign id v params) ≡ stack ids params
  stack-assign_absent id v [] params h = refl
  stack-assign_absent id v (x ∷ xs) params h = ground (
    arith,
    lookup-assign id x v params,
    eq_iff id x,
    eq_iff x id,
    stack-assign_absent id v xs params,
  )

  stack-assign_present :
      (id : String) (v : M) (ids : List String) (params : List (String × M))
      → IsDistinct ids
      → holds ids id ≡ true
      → stack ids (assign id v params) ≡ assign id (some v) (stack ids params)
  stack-assign_present id v [] params d h = cc
  stack-assign_present id v (x ∷ xs) params d h = ground (
    arith,
    lookup-assign id x v params,
    eq_iff id x,
    eq_iff x id,
    stack-assign_absent id v xs params,
    stack-assign_present id v xs params d.1,
  )

  stack-push :
      (id : String) (v : M) (ids : List String) (params : List (String × M))
      → holds ids id ≡ false
      → stack (ids ++ (id ∷ [])) (assign id v params) ≡ assign id (some v) (stack ids params)
  stack-push id v [] params h = ground (arith, lookup-assign id id v params, eq_iff id id)
  stack-push id v (x ∷ xs) params h =
      ground
        (arith, lookup-assign id x v params, eq_iff id x, eq_iff x id, stack-push id v xs params)

  stack-erase :
      (id : String) (ids : List String) (params : List (String × M))
      → stack (remove_all id ids) (erase id params) ≡ erase id (stack ids params)
  stack-erase id [] params = refl
  stack-erase id (x ∷ xs) params =
      ground (arith, lookup-erase id x params, eq_iff id x, eq_iff x id, stack-erase id xs params)

  erase_absent :
      (id : String) (ids : List String) (params : List (String × M))
      → holds ids id ≡ false
      → erase id (stack ids params) ≡ stack ids params
  erase_absent id [] params h = refl
  erase_absent id (x ∷ xs) params h = ground (arith, erase_absent id xs params)

abbrev pub overlays : {q : Qt} → ConnectionState q → List (String × Option q.VariantMap)
overlays c = stack c.props.active_overlay_ids c.props.overlay_params

module _ {q : Qt} where
  add_overlay-HasStack :
      (id : String) (params : q.Object) (c : ConnectionState q)
      → HasStack c
      → HasStack (add_overlay id params c)
  unfolding add_overlay
  add_overlay-HasStack id params c h = record {
    distinct = ground (arith, append-IsDistinct c.props.active_overlay_ids id h.distinct);
    keyed = λ k. ground (
      arith,
      h.keyed k,
      holds-append c.props.active_overlay_ids id k,
      eq_iff id k,
      lookup-assign id k (q.to_variant_map params) c.props.overlay_params,
    );
  }

  remove_overlay-HasStack :
      (id : String) (c : ConnectionState q) → HasStack c → HasStack (remove_overlay id c)
  unfolding remove_overlay
  remove_overlay-HasStack id c h = record {
    distinct =
        ground (arith, remove_all-IsDistinct id c.props.active_overlay_ids h.distinct, h.distinct);
    keyed = λ k. ground (
      arith,
      h.keyed k,
      holds-remove_all id c.props.active_overlay_ids k,
      lookup-erase id k c.props.overlay_params,
    );
  }

  clear_overlays-HasStack : (c : ConnectionState q) → HasStack c → HasStack (clear_overlays c)
  unfolding clear_overlays
  clear_overlays-HasStack c h = record {
    distinct = ground (arith, h.distinct);
    keyed = λ k. ground (arith, h.keyed k);
  }

  -- A slot that leaves the two lists alone keeps the stack.
  HasStack-of_same :
      (c d : ConnectionState q)
      → HasStack c
      → d.props.active_overlay_ids ≡ c.props.active_overlay_ids
      → d.props.overlay_params ≡ c.props.overlay_params
      → HasStack d
  HasStack-of_same c d h e f = record {
    distinct = rw e h.distinct;
    keyed = λ k. rw (e, f) (h.keyed k);
  }

  call-HasStack : (s : Slot q) (c : ConnectionState q) → HasStack c → HasStack (call s c)
  unfolding call set_status set_session_id set_server_version set_reconnect_attempts append_log
      set_transcript_partial set_transcript_final set_agent_state set_voice_state append_llm_token
      clear_llm_response set_background_context set_map_focus clear_map_focus set_background
      set_active_background_id set_scene_data clear_scene_data set_scene_transition
      set_pipeline_health
  call-HasStack (overlay_add id params) c h = add_overlay-HasStack id params c h
  call-HasStack (overlay_remove id) c h = remove_overlay-HasStack id c h
  call-HasStack overlays_clear c h = clear_overlays-HasStack c h
  call-HasStack _ c h = HasStack-of_same c _ h (ground arith) (ground arith)

  calls-HasStack : (ss : List (Slot q)) (c : ConnectionState q) → HasStack c → HasStack (calls ss c)
  unfolding calls
  calls-HasStack [] c h = h
  calls-HasStack (s ∷ ss) c h = calls-HasStack ss (call s c) (call-HasStack s c h)

  -- On a state with a stack, `addOverlay` sets the parameters of that overlay and pushes it if it
  -- is new, `removeOverlay` takes it out, and `clearOverlays` empties the stack, all of them on one
  -- insertion-ordered map.
  pub overlay_slots_refine :
      (id : String) (params : q.Object) (c : ConnectionState q)
      → HasStack c
      → (overlays (add_overlay id params c)
          ≡ assign id (some (q.to_variant_map params)) (overlays c))
        × (overlays (remove_overlay id c) ≡ erase id (overlays c))
        × (overlays (clear_overlays c) ≡ [])
  unfolding add_overlay remove_overlay clear_overlays
  overlay_slots_refine id params c h =
      let ids = c.props.active_overlay_ids in
      let ps = c.props.overlay_params in
      let v = q.to_variant_map params in
      (
        ground (arith, stack-push id v ids ps, stack-assign_present id v ids ps h.distinct),
        ground (arith, stack-erase id ids ps, erase_absent id ids ps),
        ground arith,
      )

-- After any sequence of slot calls on a new object, no overlay is stacked twice and just the
-- stacked overlays have parameters.
pub calls-new-HasStack : (q : Qt) (ss : List (Slot q)) → HasStack (calls ss (new q))
calls-new-HasStack q ss = calls-HasStack ss (new q) (record { distinct = tt; keyed = λ k. refl })
