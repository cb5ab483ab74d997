-- ===== src/Client/Dead.antt =====
-- The calls of `api` in frontend/src/api/client.ts that end with a 401, and the handler of
-- `AuthProvider`: counting them, one run of the handler and the runs for all calls that wait.
use procovar_notify.Prelude.{
  ℕ, zero, suc, ◌+◌, ◌≡◌, refl, Bool, true, false, inl, inr, none, some, List, [], ◌∷◌, ◌++◌, map,
  arith, eqb, Bool-cases, get_elem?, if◌then◌else◌, All, ◌⊎◌,
}
use procovar_notify.Client.{
  Phase, Call, Client, is_waiting, is_expired, set_call, unauthorized, report_all,
}
use procovar_notify.Client.Calls.{IsFair}
use procovar_notify.Client.Handler.{report_all-keeps, report_all-waits, report_all-passes}

-- Whether a call in a phase has ended with a 401 at a path other than the authentication endpoints.
abbrev pub is_dead_in : Phase → Call → Bool
is_dead_in (Phase.settled (some reply)) call = is_expired call reply
is_dead_in _ call = false

abbrev pub one : Bool → ℕ
one true = 1
one false = 0

-- The number of calls with a property.
abbrev pub total : (Call → Bool) → List Call → ℕ
total p [] = 0
total p (x ∷ xs) = one (p x) + total p xs

abbrev pub is_dead : Call → Bool
is_dead call = is_dead_in call.phase call

abbrev pub dead : List Call → ℕ
dead = total is_dead

abbrev pub IsSignedOut : Client → Type 0
IsSignedOut c = (c.access ≡ none) × (c.stored_admin ≡ none) × (c.admin ≡ none)

-- What a step from `c` to `d` does with the handler: with one registered, it runs once for each
-- call that the step ends with a 401, and a step in which it runs leaves nobody signed in; with
-- none registered nothing runs.
abbrev pub Reports : Client → Client → Type 0
Reports c d =
    (if c.registered
      then d.reports + dead c.calls ≡ c.reports + dead d.calls
      else d.reports ≡ c.reports)
    × (if eqb d.reports c.reports then Unit {0} else IsSignedOut d)

pub eqb_refl : (n : ℕ) → eqb n n ≡ true
eqb_refl n = ground arith

-- A step in which the handler does not run, and no call dies.
pub quiet : (c d : Client) → d.reports ≡ c.reports → dead d.calls ≡ dead c.calls → Reports c d
quiet c d same ends = elim (Bool-cases c.registered) [
  | inl on ↦ rw (on, same, eqb_refl c.reports, ends) (refl, tt)
  | inr off ↦ rw (off, same, eqb_refl c.reports) (refl, tt)
]

pub deaf : (c d : Client) → c.registered ≡ false → d.reports ≡ c.reports → Reports c d
deaf c d off same = rw (off, same, eqb_refl c.reports) (refl, tt)

if-ne : (b : Bool) (P : Type 0) → (b ≡ false → P) → if b then Unit {0} else P
if-ne true P h = tt
if-ne false P h = h refl

pub loud :
    (c d : Client)
    → c.registered ≡ true
    → d.reports + dead c.calls ≡ c.reports + dead d.calls
    → (eqb d.reports c.reports ≡ false → IsSignedOut d)
    → Reports c d
loud c d on ends out = rw on (ends, if-ne _ (IsSignedOut d) out)

pub total-set_call :
    (p : Call → Bool) (i : ℕ) (x y : Call) (xs : List Call)
    → get_elem? xs i ≡ some x
    → total p (set_call i y xs) + one (p x) ≡ total p xs + one (p y)
unfolding set_call
total-set_call p i x y [] e = cc
total-set_call p zero x y (z ∷ xs) e = ground (arith, e)
total-set_call p (suc i) x y (z ∷ xs) e = omega (arith, total-set_call p i x y xs e)

pub total-append :
    (p : Call → Bool) (xs ys : List Call) → total p (xs ++ ys) ≡ total p xs + total p ys
total-append p [] ys = omega arith
total-append p (x ∷ xs) ys = omega (arith, total-append p xs ys)

-- How many calls die when each call does `f`, where `q` tells which.
pub dead-map :
    (f : Call → Call) (q : Call → Bool) (xs : List Call)
    → ((x : Call) → IsFair x → one (is_dead (f x)) ≡ one (is_dead x) + one (q x))
    → All IsFair xs
    → dead (map f xs) ≡ dead xs + total q xs
dead-map f q [] k h = refl
dead-map f q (x ∷ xs) k (p, h) = omega (arith, k x p, dead-map f q xs k h)

pub total_never : (xs : List Call) → total (λ x. false) xs ≡ 0
total_never [] = refl
total_never (x ∷ xs) = omega (arith, total_never xs)

-- The handler with one registered, and with none.
pub heard :
    (c : Client)
    → c.registered ≡ true
    → ((unauthorized c).reports ≡ suc c.reports)
      × ((unauthorized c).registered ≡ true)
      × IsSignedOut (unauthorized c)
unfolding unauthorized
heard c on = simp on (refl, refl, (refl, refl, refl))

pub unheard : (c : Client) → c.registered ≡ false → unauthorized c ≡ c
unfolding unauthorized
unheard c off = simp off

pub reports-report_all :
    (xs : List Call) (c : Client)
    → c.registered ≡ true
    → (report_all xs c).reports ≡ c.reports + total is_waiting xs
reports-report_all [] c on = unfold report_all in omega arith
reports-report_all (x ∷ xs) c on = elim (Bool-cases (is_waiting x)) [
  | inl e ↦
      let (more, still, _) = heard c on in
      rw (report_all-waits x xs c e, e)
        (omega (arith, more, reports-report_all xs (unauthorized c) still))
  | inr e ↦ rw (report_all-passes x xs c e, e) (omega (arith, reports-report_all xs c on))
]

pub report_all-unheard : (xs : List Call) (c : Client) → c.registered ≡ false → report_all xs c ≡ c
unfolding report_all
report_all-unheard [] c off = refl
report_all-unheard (x ∷ xs) c off = elim (Bool-cases (is_waiting x)) [
  | inl e ↦ rw (e, unheard c off) (report_all-unheard xs c off)
  | inr e ↦ rw e (report_all-unheard xs c off)
]

-- If any call waits, nobody is signed in afterwards.
pub report_all-IsSignedOut :
    (xs : List Call) (c : Client)
    → c.registered ≡ true
    → IsSignedOut (report_all xs c) ⊎ ((report_all xs c).reports ≡ c.reports)
report_all-IsSignedOut [] c on = unfold report_all in inr refl
report_all-IsSignedOut (x ∷ xs) c on = elim (Bool-cases (is_waiting x)) [
  | inl e ↦
      let (more, still, out) = heard c on in
      let k =
        report_all-keeps (λ d. (d.registered ≡ true) × IsSignedOut d)
          (λ d h. let (m, s, o) = heard d h.0 in (s, o)) xs (unauthorized c) (still, out) in
      rw (report_all-waits x xs c e) (inl k.1)
  | inr e ↦ rw (report_all-passes x xs c e) (report_all-IsSignedOut xs c on)
]
