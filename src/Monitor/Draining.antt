-- ===== src/Monitor/Draining.antt =====
-- The inner loop of the monitor takes every event out of the buffer, and the events of a text and of
-- more text are those that the loop finds when the rest comes later.
use Prim.Native.Char.{Char}
use Prim.Native.String
use Prim.Native.String.{[], ◌∷◌}
use text.Mathlib.TextLemmas.{cons-append}
use mathlib.Core.Option.{some-injective}
use procovar_notify.Prelude.{
  String, ℕ, zero, suc, ◌+◌, ◌≤◌, ◌≡◌, refl, ap, sym, ◌∙◌, true, false, ◌&&◌, Option, none, some,
  [], ◌∷◌, ◌++◌, arith, length, ◌*◌, Bool-cases, Option-cases, inl, inr,
}
use procovar_notify.Structure.Variables.{size}
use procovar_notify.Monitor.Stream.{next_event, is_newline, consed, drain, take_events}

pub next_event-nil : next_event [] ≡ none
unfolding next_event
next_event-nil = refl

next_event-one : (x : Char) → next_event (◌∷◌ x []) ≡ none
unfolding next_event
next_event-one x = refl

pub next_event-blank :
    (x y : Char) (s : String)
    → (is_newline x && is_newline y) ≡ true
    → next_event (◌∷◌ x (◌∷◌ y s)) ≡ some ([], s)
unfolding next_event
next_event-blank x y s b = rw b refl

-- Off a blank line the first event starts one character later.
pub next_event-cons :
    (x y : Char) (s : String)
    → (is_newline x && is_newline y) ≡ false
    → next_event (◌∷◌ x (◌∷◌ y s)) ≡ consed x (next_event (◌∷◌ y s))
unfolding next_event
next_event-cons x y s b = rw b refl

consed-rest :
    (c : Char) (o : Option (String × String)) (event rest : String)
    → consed c o ≡ some (event, rest)
    → (body : String) × (o ≡ some (body, rest)) × (event ≡ ◌∷◌ c body)
consed-rest c none event rest e = cc e
consed-rest c (some (body, kept)) event rest e =
    (body, ap (λ k. some (body, k)) (ap (λ p. p.1) q), sym (ap (λ p. p.0) q))
  where
    q : Path (String × String) (◌∷◌ c body, kept) (event, rest)
    q = some-injective _ _ e

-- An event that is there stays there when more text comes.
pub next_event-append :
    (b c event rest : String)
    → next_event b ≡ some (event, rest)
    → next_event (String.◌++◌ b c) ≡ some (event, String.◌++◌ rest c)
next_event-append [] c event rest e = cc (next_event-nil, e)
next_event-append (x ∷ []) c event rest e = cc (next_event-one x, e)
next_event-append (x ∷ y ∷ s) c event rest e = elim (Bool-cases (is_newline x && is_newline y)) [
  | inl b ↦
      rw (cons-append, cons-append, next_event-blank x y _ b)
        (cc (some-injective _ _ (sym (next_event-blank x y s b) ∙ e)))
  | inr b ↦
      let (body, q, p) = consed-rest x _ event rest (sym (next_event-cons x y s b) ∙ e) in
      rw (cons-append, cons-append, next_event-cons x y _ b)
        (rw (sym (cons-append y s c), next_event-append (◌∷◌ y s) c body rest q, p) refl)
]

pub size-next_event :
    (b event rest : String) → next_event b ≡ some (event, rest) → 2 + size rest ≤ size b
unfolding size
size-next_event [] event rest e = cc (next_event-nil, e)
size-next_event (x ∷ []) event rest e = cc (next_event-one x, e)
size-next_event (x ∷ y ∷ s) event rest e = elim (Bool-cases (is_newline x && is_newline y)) [
  | inl b ↦
      omega (arith, ap (λ p. size p.1) (some-injective _ _ (sym (next_event-blank x y s b) ∙ e)))
  | inr b ↦
      let (body, q, p) = consed-rest x _ event rest (sym (next_event-cons x y s b) ∙ e) in
      omega (arith, size-next_event (◌∷◌ y s) body rest q)
]

drain-none : (n : ℕ) (b : String) → next_event b ≡ none → drain n b ≡ ([], b)
unfolding drain
drain-none zero b e = refl
drain-none (suc n) b e = rw (e, drain) refl

drain-some :
    (n : ℕ) (b event rest : String)
    → next_event b ≡ some (event, rest)
    → drain (suc n) b ≡ (event ∷ (drain n rest).0, (drain n rest).1)
unfolding drain
drain-some n b event rest e = rw (e, drain) refl

-- What holds of a buffer without an event, and of one with an event if it holds of the rest, holds
-- of every buffer.
module _ (P : String → Type 0) where
  up_to :
      ((b : String) → next_event b ≡ none → P b)
      → ((b event rest : String) → next_event b ≡ some (event, rest) → P rest → P b)
      → (n : ℕ) (b : String) → size b ≤ n
      → P b
  up_to base step zero b h = elim (Option-cases (next_event b)) [
    | inl e ↦ base b e
    | inr (p, e) ↦ absurd (omega (arith, h, size-next_event b p.0 p.1 e))
  ]
  up_to base step (suc n) b h = elim (Option-cases (next_event b)) [
    | inl e ↦ base b e
    | inr (p, e) ↦
        step b p.0 p.1 e (up_to base step n p.1 (omega (arith, h, size-next_event b p.0 p.1 e)))
  ]

  event_induction :
      ((b : String) → next_event b ≡ none → P b)
      → ((b event rest : String) → next_event b ≡ some (event, rest) → P rest → P b)
      → (b : String) → P b
  event_induction base step b = up_to base step (size b) b (omega arith)

-- More fuel than the size of the buffer changes nothing.
drain-enough : (n m : ℕ) (b : String) → size b ≤ n → size b ≤ m → drain n b ≡ drain m b
drain-enough n m b h k =
    event_induction (λ b. (n m : ℕ) → size b ≤ n → size b ≤ m → drain n b ≡ drain m b)
      (λ b e n m h k. rw (drain-none n b e, drain-none m b e) refl) more b n m h k
  where
    more :
        (b event rest : String)
        → next_event b ≡ some (event, rest)
        → ((n m : ℕ) → size rest ≤ n → size rest ≤ m → drain n rest ≡ drain m rest)
        → (n m : ℕ) → size b ≤ n
        → size b ≤ m
        → drain n b ≡ drain m b
    more b event rest e ih zero m h k = absurd (omega (arith, h, size-next_event b event rest e))
    more b event rest e ih (suc n) zero h k =
        absurd (omega (arith, k, size-next_event b event rest e))
    more b event rest e ih (suc n) (suc m) h k =
        rw
          (
            drain-some n b event rest e,
            drain-some m b event rest e,
            ih n m (omega (arith, h, size-next_event b event rest e))
                (omega (arith, k, size-next_event b event rest e)),
          )
          refl

pub take_events-none : (b : String) → next_event b ≡ none → take_events b ≡ ([], b)
unfolding take_events
take_events-none b e = drain-none (size b) b e

pub take_events-some :
    (b event rest : String)
    → next_event b ≡ some (event, rest)
    → take_events b ≡ (event ∷ (take_events rest).0, (take_events rest).1)
unfolding take_events
take_events-some b event rest e =
    drain-enough (size b) (suc (size b)) b (omega arith) (omega arith)
    ∙ drain-some (size b) b event rest e
    ∙ rw
        (drain-enough (size b) (size rest) rest (omega (arith, size-next_event b event rest e))
          (omega arith))
        refl

-- The events of a text and of more text are those of the text, and those of what is left with the
-- rest.
pub take_events-append :
    (b c : String)
    → take_events (String.◌++◌ b c) ≡ (
      (take_events b).0 ++ (take_events (String.◌++◌ (take_events b).1 c)).0,
      (take_events (String.◌++◌ (take_events b).1 c)).1,
    )
take_events-append b c =
    event_induction
      (λ b. take_events (String.◌++◌ b c) ≡ (
        (take_events b).0 ++ (take_events (String.◌++◌ (take_events b).1 c)).0,
        (take_events (String.◌++◌ (take_events b).1 c)).1,
      ))
      (λ b e. rw (take_events-none b e) refl)
      (λ b event rest e ih.
        rw
          (
            take_events-some b event rest e,
            take_events-some _ event _ (next_event-append b c event rest e),
            ih,
          )
          refl)
      b

-- The inner loop ends with no event left in the buffer, and each event has taken at least two
-- characters of it.
pub take_events_done :
    (b : String)
    → (next_event (take_events b).1 ≡ none)
      × (2 * length (take_events b).0 + size (take_events b).1 ≤ size b)
take_events_done b =
    event_induction
      (λ b.
        (next_event (take_events b).1 ≡ none)
        × (2 * length (take_events b).0 + size (take_events b).1 ≤ size b))
      (λ b e. rw (take_events-none b e) (e, omega arith))
      (λ b event rest e (done, fits).
        rw (take_events-some b event rest e)
          (done, omega (arith, fits, size-next_event b event rest e)))
      b
