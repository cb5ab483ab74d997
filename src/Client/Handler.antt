-- ===== src/Client/Handler.antt =====
-- `onUnauthorized?.()` of frontend/src/api/client.ts, by one call or by all that wait for a renewal:
-- what it leaves as it is.
use procovar_notify.Prelude.{true, false, ◌≡◌, refl, List, [], ◌∷◌, Bool-cases, inl, inr}
use procovar_notify.Client.{Client, Call, is_waiting, unauthorized, report_all}

pub calls-unauthorized : (c : Client) → (unauthorized c).calls ≡ c.calls
unfolding unauthorized
calls-unauthorized c = elim (Bool-cases c.registered) [ inl e ↦ rw e refl | inr e ↦ rw e refl ]

-- What one report keeps, all of them keep.
pub report_all-keeps :
    (P : Client → Type 0)
    → ((c : Client) → P c → P (unauthorized c))
    → (calls : List Call) (c : Client) → P c
    → P (report_all calls c)
unfolding report_all
report_all-keeps P keep [] c h = h
report_all-keeps P keep (x ∷ xs) c h = elim (Bool-cases (is_waiting x)) [
  | inl e ↦ rw e (report_all-keeps P keep xs (unauthorized c) (keep c h))
  | inr e ↦ rw e (report_all-keeps P keep xs c h)
]

pub report_all-waits :
    (x : Call) (xs : List Call) (c : Client)
    → is_waiting x ≡ true
    → report_all (x ∷ xs) c ≡ report_all xs (unauthorized c)
unfolding report_all
report_all-waits x xs c e = rw e refl

pub report_all-passes :
    (x : Call) (xs : List Call) (c : Client)
    → is_waiting x ≡ false
    → report_all (x ∷ xs) c ≡ report_all xs c
unfolding report_all
report_all-passes x xs c e = rw e refl
