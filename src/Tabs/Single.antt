-- ===== src/Tabs/Single.antt =====
-- The form of a panel has one request on its way at most, and `saving` says so.
use procovar_notify.Prelude.{
  ◌≤◌, ap, ◌∙◌, ℕ, zero, suc, ◌≡◌, refl, Bool, true, false, List, [], ◌∷◌, if◌then◌else◌, arith,
  String,
}
use procovar_notify.Tabs.{
  Panel, Reply, accepted, rejected, closed, opened, refused, submitted, answered, deleted,
}

-- What happens to a panel. A form is sent by its button, which is disabled while `saving` holds; an
-- answer comes only to a request.
pub data PanelEvent (F R E : Type 0) : Type 0 where
  opens edits : F → PanelEvent F R E
  closes presses : PanelEvent F R E
  refuses : String → PanelEvent F R E
  answers : Reply R E → PanelEvent F R E
  deletes : Reply Unit E → PanelEvent F R E

abbrev in_flight : Bool → ℕ
in_flight true = 1
in_flight false = 0

in_flight_le : (b : Bool) → in_flight b ≤ 1
in_flight_le true = omega arith
in_flight_le false = omega arith

module _ {F E : Type 0} where
  abbrev press : Panel F E → Panel F E
  press p = if p.saving then p else submitted p

  abbrev pub IsSingle : Panel F E → Type 0
  IsSingle p = p.pending ≡ in_flight p.saving

  IsSingle-if :
      (b : Bool) (p : Panel F E)
      → p.saving ≡ b
      → IsSingle p
      → IsSingle (if b then p else submitted p)
  unfolding submitted
  IsSingle-if true p e h = h
  IsSingle-if false p e h = ap suc (h ∙ ap in_flight e)

module _ {F R E : Type 0} where
  abbrev take_answer : ℕ → Reply R E → Panel F E → Panel F E
  take_answer zero reply p = p
  take_answer (suc n) reply p = answered reply p

  unfoldable pub on_event : PanelEvent F R E → Panel F E → Panel F E
  unfolding opened refused submitted answered deleted
  on_event (opens form) p = opened form p
  on_event (edits form) p = record p { form = form }
  on_event closes p = record p { open_ = false }
  on_event presses p = press p
  on_event (refuses text) p = refused text p
  on_event (answers reply) p = take_answer p.pending reply p
  on_event (deletes reply) p = deleted reply p

  unfoldable pub on_events : List (PanelEvent F R E) → Panel F E → Panel F E
  unfolding on_event
  on_events [] p = p
  on_events (e ∷ es) p = on_events es (on_event e p)

  IsSingle-take_answer :
      (n : ℕ) (reply : Reply R E) (p : Panel F E) → IsSingle p → IsSingle (take_answer n reply p)
  unfolding answered
  IsSingle-take_answer zero reply p h = h
  IsSingle-take_answer (suc n) (accepted r) p h = omega (arith, h, in_flight_le p.saving)
  IsSingle-take_answer (suc n) (rejected e) p h = omega (arith, h, in_flight_le p.saving)

  IsSingle-on_event : (e : PanelEvent F R E) (p : Panel F E) → IsSingle p → IsSingle (on_event e p)
  unfolding on_event opened refused deleted
  IsSingle-on_event (opens form) p h = h
  IsSingle-on_event (edits form) p h = h
  IsSingle-on_event closes p h = h
  IsSingle-on_event presses p h = IsSingle-if p.saving p refl h
  IsSingle-on_event (refuses text) p h = h
  IsSingle-on_event (answers reply) p h = IsSingle-take_answer p.pending reply p h
  IsSingle-on_event (deletes (accepted r)) p h = h
  IsSingle-on_event (deletes (rejected e)) p h = h

  kept : (es : List (PanelEvent F R E)) (p : Panel F E) → IsSingle p → IsSingle (on_events es p)
  unfolding on_events
  kept [] p h = h
  kept (e ∷ es) p h = kept es (on_event e p) (IsSingle-on_event e p h)

  -- Whatever the user does from the first rendering on and however the requests end, one request of
  -- the form is on its way while `saving` holds, and none otherwise.
  pub on_events-IsSingle :
      (es : List (PanelEvent F R E)) (form : F) → IsSingle (on_events es (closed form))
  unfolding closed
  on_events-IsSingle es form = kept es (closed form) refl
