-- ===== src/Client/Steps.antt =====
-- The runs of the client: calls start, requests end, in any order, and a renewal ends only while one
-- is in flight. `Monitor` of frontend/src/pages/tabs/Monitor.tsx asks for a renewal of its own.
use procovar_notify.Prelude.{String, ℕ, ◌≡◌, true, Bool, Option, []}
use procovar_notify.Client.{
  false, Client, Admin, Answer, RefreshAnswer, start_call, on_answer, on_refresh_answer,
  try_refresh,
}

-- `setOnUnauthorized`, as `AuthProvider` mounts and unmounts.
unfoldable pub set_on_unauthorized : Bool → Client → Client
set_on_unauthorized registered c = record c { registered = registered }

-- The module as it is loaded.
unfoldable pub loaded : Option String → Option Admin → Client
loaded access stored = record {
  access = access;
  stored_admin = stored;
  admin = stored;
  in_flight = false;
  registered = false;
  reports = 0;
  calls = [];
  traffic = [];
}

pub data Step (api_base : String) : Client → Client → Type 0 where
  starts :
      (method path : String) (body : Option String) (c : Client)
      → Step api_base c (start_call api_base method path body c)
  answers : (i : ℕ) (answer : Answer) (c : Client) → Step api_base c (on_answer i answer c)
  asks_refresh : (c : Client) → Step api_base c (try_refresh c)
  refreshes :
      (answer : RefreshAnswer) (c : Client)
      → c.in_flight ≡ true
      → Step api_base c (on_refresh_answer api_base answer c)
  registers : (registered : Bool) (c : Client) → Step api_base c (set_on_unauthorized registered c)

pub data Reaches (api_base : String) (c : Client) : Client → Type 0 where
  here : Reaches api_base c c
  next : {d e : Client} → Reaches api_base c d → Step api_base d e → Reaches api_base c e
