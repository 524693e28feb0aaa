-- ===== src/Sdk/Events/Settled.antt =====
-- packages/sdk/src/events.ts: the pulls that were answered, and the events that they got.
use pherry.Base.{ℕ, ◌≡◌, refl, sym, ap, ◌∙◌, List, [], ◌∷◌, ◌++◌, append-nil}
use pherry.Sdk.Events.{PtyEvent, PtyEventStream, Answer, value, done, failed, answer_all}

-- The events that pulls were answered with.
unfoldable pub values : List (ℕ × Answer) → List PtyEvent
values [] = []
values ((pull, value e) ∷ settled) = e ∷ values settled
values ((pull, done) ∷ settled) = values settled
values ((pull, failed) ∷ settled) = values settled

-- The pulls that were answered.
unfoldable pub pulls : List (ℕ × Answer) → List ℕ
pulls [] = []
pulls ((pull, a) ∷ settled) = pull ∷ pulls settled

pub values-append : (xs ys : List (ℕ × Answer)) → values (xs ++ ys) ≡ values xs ++ values ys
unfolding values
values-append [] ys = refl
values-append ((pull, value e) ∷ xs) ys = ap (λ es. e ∷ es) (values-append xs ys)
values-append ((pull, done) ∷ xs) ys = values-append xs ys
values-append ((pull, failed) ∷ xs) ys = values-append xs ys

pub values_done : (pullers : List ℕ) → values (answer_all done pullers) ≡ []
unfolding values
values_done [] = refl
values_done (pull ∷ pullers) = values_done pullers

pub values_failed : (pullers : List ℕ) → values (answer_all failed pullers) ≡ []
unfolding values
values_failed [] = refl
values_failed (pull ∷ pullers) = values_failed pullers

pub pulls-append : (xs ys : List (ℕ × Answer)) → pulls (xs ++ ys) ≡ pulls xs ++ pulls ys
unfolding pulls
pulls-append [] ys = refl
pulls-append ((pull, a) ∷ xs) ys = ap (λ ps. pull ∷ ps) (pulls-append xs ys)

pub pulls-answer_all : (a : Answer) (pullers : List ℕ) → pulls (answer_all a pullers) ≡ pullers
unfolding pulls
pulls-answer_all a [] = refl
pulls-answer_all a (pull ∷ pullers) = ap (λ ps. pull ∷ ps) (pulls-answer_all a pullers)

-- All that wait are answered.
pub settled_all :
    (a : Answer) (s : PtyEventStream)
    → pulls (s.settled ++ answer_all a s.pullers) ++ [] ≡ pulls s.settled ++ s.pullers
settled_all a s =
    append-nil (pulls (s.settled ++ answer_all a s.pullers))
    ∙ pulls-append s.settled (answer_all a s.pullers)
    ∙ ap (λ ps. pulls s.settled ++ ps) (pulls-answer_all a s.pullers)

-- One that is made when none wait is answered.
pub settled_one :
    (pull : ℕ) (a : Answer) (made : List ℕ) (s : PtyEventStream)
    → s.pullers ≡ []
    → pulls s.settled ++ s.pullers ≡ made
    → pulls (s.settled ++ (pull, a) ∷ []) ++ s.pullers ≡ made ++ pull ∷ []
unfolding pulls
settled_one pull a made s alone h =
    ap (λ ps. pulls (s.settled ++ (pull, a) ∷ []) ++ ps) alone
    ∙ append-nil (pulls (s.settled ++ (pull, a) ∷ []))
    ∙ pulls-append s.settled ((pull, a) ∷ [])
    ∙ ap (λ ps. ps ++ pull ∷ [])
        (sym (append-nil (pulls s.settled)) ∙ ap (λ ps. pulls s.settled ++ ps) (sym alone) ∙ h)

-- Answers without an event change nothing.
pub settled_nothing :
    (settled answers : List (ℕ × Answer)) (queue heard : List PtyEvent)
    → values answers ≡ []
    → values settled ++ queue ≡ heard
    → values (settled ++ answers) ++ queue ≡ heard
settled_nothing settled answers queue heard nothing h =
    ap (λ v. v ++ queue)
      (values-append settled answers
        ∙ ap (λ v. values settled ++ v) nothing
        ∙ append-nil (values settled))
    ∙ h
