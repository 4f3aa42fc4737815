-- ===== src/ConnectionState/Logs.antt =====
-- The log list of ConnectionState.
use pairion_client.Base.{
  ◌-◌, ℕ, zero, suc, ◌+◌, ◌≤◌, ◌≡◌, refl, ◌∙◌, String, List, [], ◌∷◌, arith, length, take,
  length-take, ap,
}
use pairion_client.Qt.{Qt}
use pairion_client.ConnectionState.{
  ConnectionState, new, trim_logs, remove_last, max_logs, set_status, set_session_id,
  set_server_version, set_reconnect_attempts, append_log, set_transcript_partial,
  set_transcript_final, set_agent_state, set_voice_state, append_llm_token, clear_llm_response,
  set_background_context, set_map_focus, clear_map_focus, set_background, set_active_background_id,
  add_overlay, remove_overlay, clear_overlays, set_scene_data, clear_scene_data,
  set_scene_transition, set_pipeline_health,
}
use pairion_client.ConnectionState.Slots.{Slot, log, call, calls}

length-remove_last : (l : List String) → length (remove_last l) ≡ length l - 1
length-remove_last [] = omega arith
length-remove_last (x ∷ []) = omega arith
length-remove_last (x ∷ (y ∷ ys)) = omega (arith, length-remove_last (y ∷ ys))

take-remove_last : (n : ℕ) (l : List String) → suc n ≤ length l → take n (remove_last l) ≡ take n l
take-remove_last zero l h = refl
take-remove_last (suc n) [] h = absurd (omega arith)
take-remove_last (suc n) (x ∷ []) h = absurd (omega arith)
take-remove_last (suc n) (x ∷ (y ∷ ys)) h = ap (◌∷◌ x) (take-remove_last n (y ∷ ys) (omega arith))

take_all : (n : ℕ) (l : List String) → length l ≤ n → take n l ≡ l
take_all zero [] h = refl
take_all zero (x ∷ l) h = absurd (omega arith)
take_all (suc n) [] h = refl
take_all (suc n) (x ∷ l) h = ap (◌∷◌ x) (take_all n l (omega arith))

-- With fuel for the surplus, the loop leaves the first `limit` entries.
trim_logs-eq-take :
    (limit fuel : ℕ) (l : List String)
    → length l ≤ limit + fuel
    → trim_logs limit fuel l ≡ take limit l
unfolding trim_logs
trim_logs-eq-take limit zero l h = cc (take_all limit l (omega arith))
trim_logs-eq-take limit (suc fuel) l h = ground (
  arith,
  length-remove_last l,
  take-remove_last limit l,
  take_all limit l,
  trim_logs-eq-take limit fuel (remove_last l),
)

take-cons-take : (n : ℕ) (x : String) (l : List String) → take n (x ∷ take n l) ≡ take n (x ∷ l)
take-cons-take zero x l = refl
take-cons-take (suc n) x l = ap (◌∷◌ x) (shorter n l)
  where
    shorter : (m : ℕ) (k : List String) → take m (take (suc m) k) ≡ take m k
    shorter zero k = refl
    shorter (suc m) [] = refl
    shorter (suc m) (y ∷ k) = ap (◌∷◌ y) (shorter m k)

-- All that was logged, newest first.
abbrev pub heard : {q : Qt} → Slot q → List String → List String
heard (log e) l = e ∷ l
heard _ l = l

abbrev pub logged : {q : Qt} → List (Slot q) → List String → List String
logged [] l = l
logged (s ∷ ss) l = logged ss (heard s l)

append_log-recent :
    {q : Qt} (e : String) (c : ConnectionState q)
    → (append_log e c).props.recent_logs ≡ take max_logs (e ∷ c.props.recent_logs)
unfolding append_log
append_log-recent e c =
    trim_logs-eq-take max_logs (length (e ∷ c.props.recent_logs)) (e ∷ c.props.recent_logs)
      (omega arith)

call-recent :
    {q : Qt} (s : Slot q) (c : ConnectionState q) (l : List String)
    → c.props.recent_logs ≡ take max_logs l
    → (call s c).props.recent_logs ≡ take max_logs (heard s l)
unfolding call set_status set_session_id set_server_version set_reconnect_attempts
    set_transcript_partial set_transcript_final set_agent_state set_voice_state append_llm_token
    clear_llm_response set_background_context set_map_focus clear_map_focus set_background
    set_active_background_id add_overlay remove_overlay clear_overlays set_scene_data
    clear_scene_data set_scene_transition set_pipeline_health
call-recent (log e) c l h =
    append_log-recent e c ∙ ap (λ k. take max_logs (e ∷ k)) h ∙ take-cons-take max_logs e l
call-recent _ c l h = ground arith

calls-recent :
    {q : Qt} (ss : List (Slot q)) (c : ConnectionState q) (l : List String)
    → c.props.recent_logs ≡ take max_logs l
    → (calls ss c).props.recent_logs ≡ take max_logs (logged ss l)
unfolding calls
calls-recent [] c l h = h
calls-recent (s ∷ ss) c l h = calls-recent ss (call s c) (heard s l) (call-recent s c l h)

-- After any sequence of slot calls on a new object, the log list is the newest fifty of the
-- entries that were appended, newest first: the loop drops no other entry and leaves no more.
pub calls-recent_logs :
    (q : Qt) (ss : List (Slot q))
    → ((calls ss (new q)).props.recent_logs ≡ take 50 (logged ss []))
      × (length (calls ss (new q)).props.recent_logs ≤ 50)
calls-recent_logs q ss = (
  calls-recent ss (new q) [] refl,
  omega (arith, ap length (calls-recent ss (new q) [] refl), length-take 50 (logged ss [])),
)
