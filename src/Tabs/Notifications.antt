-- ===== src/Tabs/Notifications.antt =====
-- The notifications of an application, frontend/src/pages/tabs/Notifications.tsx: the filter, the
-- detail, the two actions, and what the tab shows when the list is empty.
use Prim.Native.String
use procovar_notify.Prelude.{
  String, ℕ, suc, Bool, true, false, not, ◌&&◌, Option, none, some, List, [], ◌∷◌, ◌++◌, ◌==◌,
  if◌then◌else◌, map,
}
use procovar_notify.Structure.Variables.{includes}
use procovar_notify.Tabs.{Reply, accepted, rejected}

pub record Notif : Type 0 where
  pub id : String
  pub template_key : String
  pub channel : String
  pub status : String
  pub queue_state : String

pub record Attempt : Type 0 where
  pub attempt_number : ℕ
  pub status : String
  pub error_message : Option String

pub record LogEntry : Type 0 where
  pub event : String
  pub message : Option String
  pub created_at : Option String

pub record Detail : Type 0 where
  pub notification : Notif
  pub attempts : List Attempt
  pub logs : List LogEntry

abbrev statuses : List String
statuses = "PENDING" ∷ "QUEUED" ∷ "SENT" ∷ "FAILED" ∷ "BOUNCED" ∷ "CANCELLED" ∷ []

-- The state of the tab. `reloads` counts the calls of `reload`.
pub record Notifications (E : Type 0) : Type 0 where
  pub status : String
  pub detail : Option Detail
  pub act_err : Option E
  pub auto : Bool
  pub reloads : ℕ

pub data Action : Type 0 where
  retry cancel : Action

-- The query of the list.
unfoldable pub list_path : String → String → String
list_path base status = String.◌++◌ base (
    String.◌++◌ "/notifications?limit=20"
      (if status == "" then "" else String.◌++◌ "&status=" status))

abbrev action_name : Action → String
action_name retry = "retry"
action_name cancel = "cancel"

unfoldable pub action_path : String → String → Action → String
action_path base id action =
    String.◌++◌ base (String.◌++◌ "/tasks/" (String.◌++◌ id (String.◌++◌ "/" (action_name action))))

abbrev shows : Option Detail → String → Bool
shows none id = false
shows (some d) id = d.notification.id == id

abbrev is_none {ℓ} : {A : Type ℓ} → List A → Bool
is_none [] = true
is_none (x ∷ xs) = false

module _ {E : Type 0} where
  unfoldable pub first_tab : Notifications E
  first_tab = record { status = ""; detail = none; act_err = none; auto = true; reloads = 0 }

  -- A tick of the timer, which runs while the box is ticked, and the button.
  unfoldable pub tick : Notifications E → Notifications E
  tick s = if s.auto then record s { reloads = suc s.reloads } else s

  unfoldable pub press_reload : Bool → Notifications E → Notifications E
  press_reload loading s = if loading then s else record s { reloads = suc s.reloads }

  unfoldable pub set_auto : Bool → Notifications E → Notifications E
  set_auto auto s = record s { auto = auto }

  -- `open` up to its request, and its rest.
  unfoldable pub start_open : Notifications E → Notifications E
  start_open s = record s { act_err = none }

  unfoldable pub end_open : Reply Detail E → Notifications E → Notifications E
  end_open (accepted d) s = record s { detail = some d }
  end_open (rejected e) s = record s { act_err = some e }

  -- `act` up to its request, and its rest, which opens the notification again.
  unfoldable pub start_act : Notifications E → Notifications E
  start_act s = record s { act_err = none }

  unfoldable pub end_act : Reply Unit E → Notifications E → Notifications E
  unfolding start_open
  end_act (accepted r) s = start_open (record s { reloads = suc s.reloads })
  end_act (rejected e) s = record s { act_err = some e }

  -- The choice of a status, and the button that takes the filter away.
  unfoldable pub change_status : String → Notifications E → Notifications E
  change_status status s = record s { status = status; detail = none }

  unfoldable pub clear_filter : Notifications E → Notifications E
  clear_filter s = record s { status = ""; detail = none }

  unfoldable pub is_expanded : Notif → Notifications E → Bool
  is_expanded n s = shows s.detail n.id

  -- A press on an entry of the accordion: it closes, or its detail is asked for.
  unfoldable pub press_entry : Notif → Notifications E → Notifications E
  unfolding is_expanded start_open
  press_entry n s = if is_expanded n s then record s { detail = none } else start_open s

  -- What the tab shows for the list, if it is loaded.
  unfoldable pub empty_no_filter : Option (List Notif) → Notifications E → Bool
  empty_no_filter none s = false
  empty_no_filter (some rows) s = is_none rows && s.status == ""

  unfoldable pub filtered_empty : Option (List Notif) → Notifications E → Bool
  filtered_empty none s = false
  filtered_empty (some rows) s = is_none rows && not (s.status == "")

-- The buttons of a detail.
unfoldable pub actions_for : Notif → List Action
actions_for n =
    (if n.status == "FAILED" then retry ∷ [] else [])
    ++ (if includes n.status ("PENDING" ∷ "QUEUED" ∷ []) then cancel ∷ [] else [])

abbrev dotted : Option String → String
dotted none = ""
dotted (some t) = if t == "" then "" else String.◌++◌ "· " t

module _ (text_of : ℕ → String) (hour_of : String → String) where
  -- A line of the attempts; `hour_of` is `slice(11, 19)` of a time.
  unfoldable pub attempt_line : Attempt → String
  attempt_line a = String.◌++◌ "#" (
      String.◌++◌ (text_of a.attempt_number)
        (String.◌++◌ " · " (String.◌++◌ a.status (String.◌++◌ " " (dotted a.error_message)))))

  abbrev hour_or_dash : Option String → String
  hour_or_dash none = "—"
  hour_or_dash (some time) = hour_of time

  unfoldable pub log_line : LogEntry → String
  log_line l =
      String.◌++◌ (hour_or_dash l.created_at)
        (String.◌++◌ " · " (String.◌++◌ l.event (String.◌++◌ " " (dotted l.message))))

  -- What the detail shows.
  unfoldable pub detail_body : Detail → List Action × List String × List String
  unfolding actions_for attempt_line log_line
  detail_body d = (actions_for d.notification, map attempt_line d.attempts, map log_line d.logs)
