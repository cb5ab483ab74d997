-- ===== src/Tabs/ApiKeys.antt =====
-- The API keys of an application, frontend/src/pages/tabs/ApiKeys.tsx. The name that is sent is
-- trimmed, the permissions are those that are ticked.
pub mod Guards
use Prim.Native.String
use procovar_notify.Prelude.{
  String, ℕ, suc, ◌-◌, Bool, true, false, not, ◌&&◌, ◌||◌, Option, none, some, List, [], ◌∷◌, ◌++◌,
  ◌==◌, drop, if◌then◌else◌,
}
use procovar_notify.Structure.Variables.{trim}
use procovar_notify.Tabs.{Reply, accepted, rejected}

pub record ApiKey : Type 0 where
  pub id : String
  pub name : String
  pub key_id : String
  pub scopes : List String
  pub status : String

abbrev pub scope_send : String
scope_send = "notifications:send"

abbrev pub scope_read : String
scope_read = "notifications:read"

pub record Secret : Type 0 where
  pub key_id : String
  pub secret : String

pub record CreateKey : Type 0 where
  pub name : String
  pub scopes : List String

-- `posted` holds the requests of `create` that have no answer yet, newest first.
pub record Keys (E : Type 0) : Type 0 where
  pub secret : Option Secret
  pub copied : Bool
  pub act_err : Option E
  pub saving : Bool
  pub show_form : Bool
  pub name : String
  pub send : Bool
  pub read : Bool
  pub reloads : ℕ
  pub posted : List CreateKey

unfoldable pub scopes_of : Bool → Bool → List String
scopes_of send read =
    (if send then scope_send ∷ [] else []) ++ (if read then scope_read ∷ [] else [])

abbrev pub is_empty {ℓ} : {A : Type ℓ} → List A → Bool
is_empty [] = true
is_empty (x ∷ xs) = false

-- What the user does, and the answers.
pub data Event (E : Type 0) : Type 0 where
  show_the_form hide_the_form clicks_create clicks_revoke clicks_purge : Event E
  types_name : String → Event E
  ticks_send ticks_read copies : Bool → Event E
  creates : Reply Secret E → Event E
  acts : Reply Unit E → Event E
  forgets_copy : Event E

module _ {E : Type 0} where
  unfoldable pub first_keys : Keys E
  first_keys = record {
    secret = none;
    copied = false;
    act_err = none;
    saving = false;
    show_form = false;
    name = "";
    send = true;
    read = true;
    reloads = 0;
    posted = [];
  }

  -- `create` up to its request.
  unfoldable pub start_create : Keys E → Keys E
  unfolding scopes_of trim
  start_create s = if s.saving || is_empty (scopes_of s.send s.read) then s else record s {
    act_err = none;
    saving = true;
    posted = record { name = trim s.name; scopes = scopes_of s.send s.read } ∷ s.posted;
  }

  -- The rest of `create`: the newest request is answered.
  unfoldable pub end_create : Reply Secret E → Keys E → Keys E
  end_create (accepted res) s = record s {
    secret = some res;
    copied = false;
    show_form = false;
    name = "";
    send = true;
    read = true;
    reloads = suc s.reloads;
    saving = false;
    posted = drop 1 s.posted;
  }
  end_create (rejected e) s = record s {
    act_err = some e;
    saving = false;
    posted = drop 1 s.posted;
  }

  -- `revoke` and `purge` up to their requests, and their ends.
  unfoldable pub start_action : Keys E → Keys E
  start_action s = record s { act_err = none }

  unfoldable pub end_action : Reply Unit E → Keys E → Keys E
  end_action (accepted r) s = record s { reloads = suc s.reloads }
  end_action (rejected e) s = record s { act_err = some e }

  unfoldable pub end_copy : Bool → Keys E → Keys E
  end_copy true s = record s { copied = true }
  end_copy false s = s

  unfoldable pub forget_copy : Keys E → Keys E
  forget_copy s = record s { copied = false }

  -- The cancel button is disabled while a request is on its way.
  unfoldable pub handle : Event E → Keys E → Keys E
  unfolding start_create end_create start_action end_action end_copy forget_copy
  handle show_the_form s = record s { show_form = true }
  handle hide_the_form s = if s.saving then s else record s { show_form = false }
  handle clicks_create s = start_create s
  handle clicks_revoke s = start_action s
  handle clicks_purge s = start_action s
  handle (types_name name) s = record s { name = name }
  handle (ticks_send on) s = record s { send = on }
  handle (ticks_read on) s = record s { read = on }
  handle (copies ok) s = end_copy ok s
  handle (creates reply) s = end_create reply s
  handle (acts reply) s = end_action reply s
  handle forgets_copy s = forget_copy s

  unfoldable pub handles : List (Event E) → Keys E → Keys E
  unfolding handle
  handles [] s = s
  handles (e ∷ es) s = handles es (handle e s)

-- The button of an entry by its status.
pub data KeyAction : Type 0 where
  revoke purge : KeyAction

unfoldable pub key_actions : ApiKey → List KeyAction
key_actions k =
    (if k.status == "ACTIVE" then revoke ∷ [] else [])
    ++ (if k.status == "REVOKED" then purge ∷ [] else [])

-- The text that is copied.
unfoldable pub secret_text : Secret → String
secret_text s = String.◌++◌ s.key_id (String.◌++◌ " / " s.secret)

-- Whether the invitation to create the first key is shown.
unfoldable pub invites : {E : Type 0} → Option (List ApiKey) → Bool → Keys E → Bool
invites none loading s = false
invites (some keys) loading s = is_empty keys && not loading && not s.show_form
