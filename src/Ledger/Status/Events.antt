-- ===== src/Ledger/Status/Events.antt =====
-- The order in which provider events arrive, and what a replayed event does.
use mathlib.Core.List.{Perm, Permᴰ}
use mathlib.Core.Logic.{∥∥₁_elim}
use hayasend.Base.{
  ◌≡◌, refl, sym, ap, ap₂, any-perm, ◌∙◌, Bool, true, false, not, ◌&&◌, ◌||◌, List, [], ◌∷◌, ◌++◌,
  arith, ◌==◌, beq→eq, any, includes,
}
use hayasend.Model.Status.{RecipientStatus, EventType, recipient_status_eq, event_type_eq}
use hayasend.Ledger.Status.Table.{every, every_sound}
use hayasend.Ledger.Status.{transition_recipient_status}

abbrev pub delivery_event : EventType → Bool
delivery_event e = includes (EventType.delivered ∷ EventType.opened ∷ EventType.clicked ∷ []) e

abbrev pub refusal_event : EventType → Bool
refusal_event e = includes (EventType.rejected ∷ EventType.failed ∷ []) e

abbrev pub conflict : EventType → EventType → Bool
conflict e f = (delivery_event e && refusal_event f) || (refusal_event e && delivery_event f)

commute_table :
    every (λ s e f.
      conflict e f
      || transition_recipient_status (transition_recipient_status s e) f
        == transition_recipient_status (transition_recipient_status s f) e)
    ≡ true
unfolding every transition_recipient_status
commute_table = refl

-- Two events may arrive in either order, unless one tells of delivery and the other of a refusal.
pub transition_comm :
    (s : RecipientStatus) (e f : EventType)
    → conflict e f ≡ false
    → transition_recipient_status (transition_recipient_status s e) f
      ≡ transition_recipient_status (transition_recipient_status s f) e
transition_comm s e f h = beq→eq _ _ (ground (arith, every_sound _ commute_table s e f))

replay_table :
    every (λ s e f.
      not (transition_recipient_status s e == s)
      || transition_recipient_status (transition_recipient_status s f) e
        == transition_recipient_status s f)
    ≡ true
unfolding every transition_recipient_status
replay_table = refl

idempotent_table :
    every (λ s e f.
      transition_recipient_status (transition_recipient_status s e) e
      == transition_recipient_status s e)
    ≡ true
unfolding every transition_recipient_status
idempotent_table = refl

-- An event without effect stays without effect, whatever comes next.
absorbed-transition :
    (s : RecipientStatus) (e f : EventType)
    → transition_recipient_status s e ≡ s
    → transition_recipient_status (transition_recipient_status s f) e
      ≡ transition_recipient_status s f
absorbed-transition s e f h = beq→eq _ _ (
    ground (
      arith,
      every_sound _ replay_table s e f,
      (recipient_status_eq.beq_iff (transition_recipient_status s e) s).1 h,
    ))

-- The status of a recipient after a sequence of events.
abbrev pub receive : RecipientStatus → List EventType → RecipientStatus
receive s [] = s
receive s (e ∷ es) = receive (transition_recipient_status s e) es

receive-absorbed :
    (s : RecipientStatus) (e : EventType) (es : List EventType)
    → transition_recipient_status s e ≡ s
    → transition_recipient_status (receive s es) e ≡ receive s es
receive-absorbed s e [] h = h
receive-absorbed s e (f ∷ es) h =
    receive-absorbed (transition_recipient_status s f) e es (absorbed-transition s e f h)

receive-append :
    (s : RecipientStatus) (es fs : List EventType)
    → receive s (es ++ fs) ≡ receive (receive s es) fs
receive-append s [] fs = refl
receive-append s (e ∷ es) fs = receive-append (transition_recipient_status s e) es fs

-- An event that is delivered a second time, after any number of other events, changes nothing.
pub receive-replay :
    (s : RecipientStatus) (e : EventType) (es : List EventType)
    → receive s ((e ∷ es) ++ e ∷ []) ≡ receive s (e ∷ es)
receive-replay s e es =
    receive-append (transition_recipient_status s e) es (e ∷ [])
    ∙ receive-absorbed (transition_recipient_status s e) e es
        (beq→eq _ _ (every_sound _ idempotent_table s e e))

IsSet-status : IsSet RecipientStatus
IsSet-status = hlevel

-- No event of delivery stands beside an event of refusal.
abbrev pub consistent : List EventType → Bool
consistent es = not (any delivery_event es && any refusal_event es)

consistent-perm : {es fs : List EventType} → Permᴰ es fs → consistent es ≡ consistent fs
consistent-perm p = ap₂ (λ a b. not (a && b)) (any-perm delivery_event p) (any-perm refusal_event p)

consistent-tail :
    (e : EventType) (es : List EventType) → consistent (e ∷ es) ≡ true → consistent es ≡ true
consistent-tail e es h = ground (arith, h)

consistent-conflict :
    (e f : EventType) (es : List EventType) → consistent (e ∷ f ∷ es) ≡ true → conflict e f ≡ false
consistent-conflict e f es h =
    go (delivery_event e) (refusal_event e) (delivery_event f) (refusal_event f)
      (any delivery_event es) (any refusal_event es) h
  where
    go :
        (a b c d x y : Bool)
        → not ((a || (c || x)) && (b || (d || y))) ≡ true
        → ((a && d) || (b && c)) ≡ false
    go a b c d x y h = ground arith

receive-permᴰ :
    {es fs : List EventType} (p : Permᴰ es fs) (s : RecipientStatus)
    → consistent es ≡ true
    → receive s es ≡ receive s fs
receive-permᴰ Permᴰ.nil s h = refl
receive-permᴰ (Permᴰ.cons {a} {b} {l₁} {l₂} e p) s h =
    receive-permᴰ p (transition_recipient_status s a) (consistent-tail a l₁ h)
    ∙ ap (λ x. receive (transition_recipient_status s x) l₂) e
receive-permᴰ (Permᴰ.swap {a} {b} {l} e f) s h =
    ap (λ x. receive x l) (transition_comm s a b (consistent-conflict a b l h))
    ∙ ap₂ (λ x y. receive (transition_recipient_status (transition_recipient_status s x) y) l) f e
receive-permᴰ (Permᴰ.trans p r) s h =
    receive-permᴰ p s h ∙ receive-permᴰ r s (sym (consistent-perm p) ∙ h)

-- The order in which a recipient's events arrive does not matter, as long as no event of delivery
-- stands beside a rejection or a failure.
pub receive-perm :
    (s : RecipientStatus) (es fs : List EventType)
    → Perm es fs
    → consistent es ≡ true
    → receive s es ≡ receive s fs
receive-perm s es fs p h = ∥∥₁_elim p (IsSet-status _ _) (λ d. receive-permᴰ d s h)
