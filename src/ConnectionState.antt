-- ===== src/ConnectionState.antt =====
-- src/state/connection_state.h and .cpp: the properties that QML binds to. A slot returns the new
-- state. `emit` also re-reads the properties that the signal announces into `seen`, which is what
-- the bindings of QML hold.
pub mod Sync
pub mod Logs
pub mod Overlays
pub mod Slots
mod Tests
use pairion_client.Base.{
  ℕ, zero, suc, String, Bool, true, false, List, [], ◌∷◌, ◌++◌, str_eq, ◌==◌, ltb, if◌then◌else◌,
  length, holds, remove_all, assign, erase,
}
use pairion_client.Qt.{Qt}
use Prim.Native.String.{◌++◌ as append_text}

pub data Status : Type 0 where
  disconnected connecting connected reconnecting : Status

abbrev pub status_eq : Status → Status → Bool
status_eq disconnected disconnected = true
status_eq connecting connecting = true
status_eq connected connected = true
status_eq reconnecting reconnecting = true
status_eq _ _ = false

pub data Signal : Type 0 where
  status_changed session_id_changed server_version_changed reconnect_attempts_changed : Signal
  recent_logs_changed transcript_partial_changed transcript_final_changed : Signal
  llm_response_changed agent_state_changed voice_state_changed : Signal
  background_context_changed map_focus_changed active_background_id_changed : Signal
  active_overlay_ids_changed scene_data_changed background_params_changed : Signal
  overlay_params_changed scene_transition_changed pipeline_health_changed : Signal

-- The members behind the Q_PROPERTY declarations.
pub record Properties (q : Qt) : Type 0 where
  pub status : Status
  pub session_id : String
  pub server_version : String
  pub reconnect_attempts : ℕ
  pub recent_logs : List String
  pub transcript_partial : String
  pub transcript_final : String
  pub llm_response : String
  pub agent_state : String
  pub voice_state : String
  pub background_context : String
  pub map_focus_active : Bool
  pub map_focus_lat : q.Double
  pub map_focus_lon : q.Double
  pub map_focus_label : String
  pub map_focus_zoom : String
  pub active_background_id : String
  pub active_overlay_ids : List String
  pub scene_data : List (String × q.Variant)
  pub background_params : q.VariantMap
  pub overlay_params : List (String × q.VariantMap)
  pub scene_transition : String
  pub pipeline_health : String

pub record ConnectionState (q : Qt) : Type 0 where
  pub props : Properties q
  pub seen : Properties q
  -- the signals so far, newest first
  pub emitted : List Signal

-- `NOTIFY`: which properties a signal makes QML read again.
abbrev pub reread : {q : Qt} → Signal → Properties q → Properties q → Properties q
reread status_changed p seen = record seen { status = p.status }
reread session_id_changed p seen = record seen { session_id = p.session_id }
reread server_version_changed p seen = record seen { server_version = p.server_version }
reread reconnect_attempts_changed p seen = record seen { reconnect_attempts = p.reconnect_attempts }
reread recent_logs_changed p seen = record seen { recent_logs = p.recent_logs }
reread transcript_partial_changed p seen = record seen { transcript_partial = p.transcript_partial }
reread transcript_final_changed p seen = record seen { transcript_final = p.transcript_final }
reread llm_response_changed p seen = record seen { llm_response = p.llm_response }
reread agent_state_changed p seen = record seen { agent_state = p.agent_state }
reread voice_state_changed p seen = record seen { voice_state = p.voice_state }
reread background_context_changed p seen = record seen { background_context = p.background_context }
reread map_focus_changed p seen = record seen {
  map_focus_active = p.map_focus_active;
  map_focus_lat = p.map_focus_lat;
  map_focus_lon = p.map_focus_lon;
  map_focus_label = p.map_focus_label;
  map_focus_zoom = p.map_focus_zoom;
}
reread active_background_id_changed p seen = record seen {
  active_background_id = p.active_background_id;
}
reread active_overlay_ids_changed p seen = record seen { active_overlay_ids = p.active_overlay_ids }
reread scene_data_changed p seen = record seen { scene_data = p.scene_data }
reread background_params_changed p seen = record seen { background_params = p.background_params }
reread overlay_params_changed p seen = record seen { overlay_params = p.overlay_params }
reread scene_transition_changed p seen = record seen { scene_transition = p.scene_transition }
reread pipeline_health_changed p seen = record seen { pipeline_health = p.pipeline_health }

-- `while (m_recentLogs.size() > limit) m_recentLogs.removeLast();`, on fuel.
abbrev remove_last : List String → List String
remove_last [] = []
remove_last (x ∷ []) = []
remove_last (x ∷ (y ∷ ys)) = x ∷ remove_last (y ∷ ys)

trim_logs : ℕ → ℕ → List String → List String
trim_logs limit zero logs = logs
trim_logs limit (suc fuel) logs =
    let rest = trim_logs limit fuel (remove_last logs) in
    if ltb limit (length logs) then rest else logs

abbrev pub max_logs : ℕ
max_logs = 50

-- The transition that `setBackground` stores.
abbrev transition_or_default : String → String
transition_or_default transition = if str_eq transition "" then "crossfade" else transition

abbrev is_empty {ℓ} : {A : Type ℓ} → List A → Bool
is_empty [] = true
is_empty (x ∷ xs) = false

module _ {q : Qt} where
  abbrev pub emit : Signal → ConnectionState q → ConnectionState q
  emit s c = record c { seen = reread s c.props c.seen; emitted = s ∷ c.emitted }

  -- An assignment to members.
  abbrev pub put : Properties q → ConnectionState q → ConnectionState q
  put p c = record c { props = p }

  unfoldable pub set_status : Status → ConnectionState q → ConnectionState q
  set_status s c =
      if status_eq c.props.status s
      then c
      else emit status_changed (put (record (c.props) { status = s }) c)

  unfoldable pub set_session_id : String → ConnectionState q → ConnectionState q
  set_session_id id c =
      if str_eq c.props.session_id id
      then c
      else emit session_id_changed (put (record (c.props) { session_id = id }) c)

  unfoldable pub set_server_version : String → ConnectionState q → ConnectionState q
  set_server_version version c =
      if str_eq c.props.server_version version
      then c
      else emit server_version_changed (put (record (c.props) { server_version = version }) c)

  unfoldable pub set_reconnect_attempts : ℕ → ConnectionState q → ConnectionState q
  set_reconnect_attempts count c =
      if c.props.reconnect_attempts == count
      then c
      else emit reconnect_attempts_changed (put (record (c.props) { reconnect_attempts = count }) c)

  unfoldable pub append_log : String → ConnectionState q → ConnectionState q
  unfolding trim_logs
  append_log entry c =
      let logs = entry ∷ c.props.recent_logs in
      emit recent_logs_changed
        (put (record (c.props) { recent_logs = trim_logs max_logs (length logs) logs }) c)

  unfoldable pub set_transcript_partial : String → ConnectionState q → ConnectionState q
  set_transcript_partial text c =
      if str_eq c.props.transcript_partial text
      then c
      else emit transcript_partial_changed (put (record (c.props) { transcript_partial = text }) c)

  unfoldable pub set_transcript_final : String → ConnectionState q → ConnectionState q
  set_transcript_final text c =
      if str_eq c.props.transcript_final text
      then c
      else emit transcript_final_changed (put (record (c.props) { transcript_final = text }) c)

  unfoldable pub set_agent_state : String → ConnectionState q → ConnectionState q
  set_agent_state state c =
      if str_eq c.props.agent_state state
      then c
      else emit agent_state_changed (put (record (c.props) { agent_state = state }) c)

  unfoldable pub set_voice_state : String → ConnectionState q → ConnectionState q
  set_voice_state state c =
      if str_eq c.props.voice_state state
      then c
      else emit voice_state_changed (put (record (c.props) { voice_state = state }) c)

  unfoldable pub append_llm_token : String → ConnectionState q → ConnectionState q
  append_llm_token delta c =
      emit llm_response_changed
        (put (record (c.props) { llm_response = append_text c.props.llm_response delta }) c)

  unfoldable pub clear_llm_response : ConnectionState q → ConnectionState q
  clear_llm_response c =
      if str_eq c.props.llm_response ""
      then c
      else emit llm_response_changed (put (record (c.props) { llm_response = "" }) c)

  unfoldable pub set_background_context : String → ConnectionState q → ConnectionState q
  set_background_context context c =
      if str_eq c.props.background_context context
      then c
      else emit background_context_changed
          (put (record (c.props) { background_context = context }) c)

  unfoldable pub set_map_focus :
      q.Double → q.Double → String → String → ConnectionState q → ConnectionState q
  set_map_focus lat lon label zoom c = emit map_focus_changed (
      put
        (record (c.props) {
          map_focus_lat = lat;
          map_focus_lon = lon;
          map_focus_label = label;
          map_focus_zoom = zoom;
          map_focus_active = true;
        })
        c)

  unfoldable pub clear_map_focus : ConnectionState q → ConnectionState q
  clear_map_focus c =
      if c.props.map_focus_active
      then emit map_focus_changed (put (record (c.props) { map_focus_active = false }) c)
      else c

  -- `setBackground` before its last two signals.
  store_background : String → q.Object → String → ConnectionState q → ConnectionState q
  store_background background_id params transition c =
      let same = str_eq c.props.active_background_id background_id in
      let p = record (c.props) {
        active_background_id = if same then c.props.active_background_id else background_id;
        background_params = q.to_variant_map params;
      } in
      let t = transition_or_default transition in
      if str_eq c.props.scene_transition t
      then put p c
      else emit scene_transition_changed (put (record p { scene_transition = t }) c)

  unfoldable pub set_background : String → q.Object → String → ConnectionState q → ConnectionState q
  unfolding store_background
  set_background background_id params transition c =
      let same = str_eq c.props.active_background_id background_id in
      let c' =
        emit background_params_changed (store_background background_id params transition c) in
      if same then c' else emit active_background_id_changed c'

  unfoldable pub set_active_background_id : String → ConnectionState q → ConnectionState q
  set_active_background_id id c =
      if str_eq c.props.active_background_id id
      then c
      else emit active_background_id_changed
          (put (record (c.props) { active_background_id = id }) c)

  unfoldable pub add_overlay : String → q.Object → ConnectionState q → ConnectionState q
  add_overlay overlay_id params c =
      let ids = c.props.active_overlay_ids in
      emit active_overlay_ids_changed (
        emit overlay_params_changed (
          put
            (record (c.props) {
              active_overlay_ids = if holds ids overlay_id then ids else ids ++ (overlay_id ∷ []);
              overlay_params = assign overlay_id (q.to_variant_map params) c.props.overlay_params;
            })
            c))

  -- `removeAll` returns how many it took out.
  unfoldable pub remove_overlay : String → ConnectionState q → ConnectionState q
  remove_overlay overlay_id c =
      if holds c.props.active_overlay_ids overlay_id
      then emit active_overlay_ids_changed (
          emit overlay_params_changed (
            put
              (record (c.props) {
                active_overlay_ids = remove_all overlay_id c.props.active_overlay_ids;
                overlay_params = erase overlay_id c.props.overlay_params;
              })
              c))
      else c

  unfoldable pub clear_overlays : ConnectionState q → ConnectionState q
  clear_overlays c =
      if is_empty c.props.active_overlay_ids
      then c
      else emit active_overlay_ids_changed (
          emit overlay_params_changed
            (put (record (c.props) { active_overlay_ids = []; overlay_params = [] }) c))

  unfoldable pub set_scene_data : String → q.Variant → ConnectionState q → ConnectionState q
  set_scene_data model_id payload c =
      emit scene_data_changed
        (put (record (c.props) { scene_data = assign model_id payload c.props.scene_data }) c)

  unfoldable pub clear_scene_data : ConnectionState q → ConnectionState q
  clear_scene_data c =
      if is_empty c.props.scene_data
      then c
      else emit scene_data_changed (put (record (c.props) { scene_data = [] }) c)

  unfoldable pub set_scene_transition : String → ConnectionState q → ConnectionState q
  set_scene_transition transition c =
      if str_eq c.props.scene_transition transition
      then c
      else emit scene_transition_changed
          (put (record (c.props) { scene_transition = transition }) c)

  unfoldable pub set_pipeline_health : String → ConnectionState q → ConnectionState q
  set_pipeline_health health c =
      if str_eq c.props.pipeline_health health
      then c
      else emit pipeline_health_changed (put (record (c.props) { pipeline_health = health }) c)

-- The member initialisers. QML has read every property once.
abbrev initial_properties : (q : Qt) → Properties q
initial_properties q = record {
  status = disconnected;
  session_id = "";
  server_version = "";
  reconnect_attempts = 0;
  recent_logs = [];
  transcript_partial = "";
  transcript_final = "";
  llm_response = "";
  agent_state = "";
  voice_state = "";
  background_context = "earth";
  map_focus_active = false;
  map_focus_lat = q.literal "0.0";
  map_focus_lon = q.literal "0.0";
  map_focus_label = "";
  map_focus_zoom = "";
  active_background_id = "globe";
  active_overlay_ids = [];
  scene_data = [];
  background_params = q.no_variants;
  overlay_params = [];
  scene_transition = "crossfade";
  pipeline_health = "connecting";
}

abbrev pub new : (q : Qt) → ConnectionState q
new q = record { props = initial_properties q; seen = initial_properties q; emitted = [] }
