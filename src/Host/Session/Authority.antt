-- ===== src/Host/Session/Authority.antt =====
-- packages/host/src/session/session.ts: the size goes back to the viewer that was recorded last.
use pherry.Base.{
  ℕ, ◌≤◌, ◌≡◌, inl, inr, refl, sym, ap, subst, ◌∙◌, Bool, true, false, not, ◌||◌, List, [], ◌∷◌,
  none, some, ltb, if◌then◌else◌, All, if_elim, Bool-cases, some_inj, arith, ltb→lt, ==_self,
}
use pherry.Base.Maps.{lookup, delete}
use pherry.Host.Session.{Session, Viewport, Mirror, broadcast}
use pherry.Host.Session.Control.{
  resize, release_viewer, inherit, restore, heir, same_size, holds, is_some,
}
use pherry.Protocol.PtyPayloads.{Size}

-- No entry of the list was recorded later.
abbrev pub Latest : ℕ → List (ℕ × Viewport) → Type 0
Latest at_ vs = All (λ v. v.1.at_ ≤ at_) vs

Latest-trans : (a b : ℕ) (vs : List (ℕ × Viewport)) → a ≤ b → Latest a vs → Latest b vs
Latest-trans a b [] h l = tt
Latest-trans a b (v ∷ vs) h l = (omega (arith, l.0), Latest-trans a b vs h l.1)

-- Whom the loop finds was recorded no earlier than its start, nor than any entry.
heir-Latest :
    (best found : ℕ × Viewport) (vs : List (ℕ × Viewport))
    → heir (some best) vs ≡ some found
    → (best.1.at_ ≤ found.1.at_) × Latest found.1.at_ vs
unfolding heir
heir-Latest best found [] e =
    (subst (λ (x : ℕ × Viewport). best.1.at_ ≤ x.1.at_) (some_inj e) (omega arith), tt)
heir-Latest best found (v ∷ vs) e =
    let (after, rest) = heir-Latest (if ltb best.1.at_ v.1.at_ then v else best) found vs e in
    elim (Bool-cases (ltb best.1.at_ v.1.at_)) [
      | inl q ↦
          let larger = ap (λ b. (if b then v else best).1.at_) q in
          let over = ltb→lt best.1.at_ v.1.at_ q in (omega arith, (omega arith, rest))
      | inr q ↦
          let larger = ap (λ b. (if b then v else best).1.at_) q in
          let under : v.1.at_ ≤ best.1.at_ = ground arith in (omega arith, (omega arith, rest))
    ]

-- It is one of the entries.
heir_found :
    (P : ℕ × Viewport → Type 0) (best found : ℕ × Viewport) (vs : List (ℕ × Viewport))
    → P best
    → All P vs
    → heir (some best) vs ≡ some found
    → P found
unfolding heir
heir_found P best found [] h hs e = subst P (some_inj e) h
heir_found P best found (v ∷ vs) h hs e =
    heir_found P (if ltb best.1.at_ v.1.at_ then v else best) found vs
      (if_elim P (ltb best.1.at_ v.1.at_) v best (λ _. hs.0) (λ _. h)) hs.1 e

heir_cases :
    (P : ℕ × Viewport → Type 0) (found : ℕ × Viewport) (vs : List (ℕ × Viewport))
    → All P vs
    → heir none vs ≡ some found
    → P found × Latest found.1.at_ vs
unfolding heir
heir_cases P found [] hs e = absurd (cc)
heir_cases P found (v ∷ vs) hs e = (heir_found P v found vs hs.0 hs.1 e, heir-Latest v found vs e)

same_size→eq : (a b : Size) → same_size a b ≡ true → a ≡ b
same_size→eq a b h = ground arith

module _ {M : Type 0} (mirror : Mirror M) where
  resize_live :
      (w : ℕ → Bool) (size : Size) (s : Session M)
      → s.ended ≡ false
      → s.disposed ≡ false
      → ((resize mirror w size s).size ≡ size)
        × ((resize mirror w size s).size_authority ≡ s.size_authority)
  unfolding resize broadcast
  resize_live w size s live kept =
      let P : Session M → Type 0 = λ x. (x.size ≡ size) × (x.size_authority ≡ s.size_authority) in
      if_elim P (s.ended || s.disposed) s _ (λ q. absurd (ground arith)) (λ _. (refl, refl))

  restore_live :
      (w : ℕ → Bool) (viewer : ℕ) (viewport : Viewport) (s : Session M)
      → s.ended ≡ false
      → s.disposed ≡ false
      → ((restore mirror w viewer (some viewport) s).size ≡ viewport.size)
        × ((restore mirror w viewer (some viewport) s).size_authority ≡ some viewer)
  unfolding restore
  restore_live w viewer viewport s live kept =
      let P : Session M → Type 0 =
        λ x. (x.size ≡ viewport.size) × (x.size_authority ≡ some viewer) in
      if_elim P (same_size viewport.size s.size) _ _
        (λ q. (sym (same_size→eq viewport.size s.size q), refl))
        (λ _. resize_live w viewport.size _ live kept)

  -- When the viewer that has the authority over the size of a live session leaves, and others are
  -- recorded, each under one key, then the one recorded last has it, and the session its size.
  pub release_viewer-heir :
      (w : ℕ → Bool) (viewer : ℕ) (s : Session M) (next : ℕ × Viewport)
      → s.ended ≡ false
      → s.disposed ≡ false
      → s.size_authority ≡ some viewer
      → is_some (lookup viewer s.viewports) ≡ true
      → All (λ v. lookup v.0 (delete viewer s.viewports) ≡ some v.1) (delete viewer s.viewports)
      → heir none (delete viewer s.viewports) ≡ some next
      → ((release_viewer mirror w viewer s).size ≡ next.1.size)
        × ((release_viewer mirror w viewer s).size_authority ≡ some next.0)
        × Latest next.1.at_ (delete viewer s.viewports)
  unfolding release_viewer inherit
  release_viewer-heir w viewer s next live kept holder recorded keys found =
      let left = delete viewer s.viewports in
      let (entry, latest) = heir_cases (λ v. lookup v.0 left ≡ some v.1) next left keys found in
      let freed : Session M = record s { viewports = left; size_authority = none } in
      let held : holds s.size_authority viewer ≡ true =
        ap (λ a. holds a viewer) holder ∙ ==_self viewer in
      let done_ : release_viewer mirror w viewer s ≡ restore mirror w next.0 (some next.1) freed =
        let target = restore mirror w next.0 (some next.1) freed in
        if_elim (λ x. x ≡ target) (not (holds s.size_authority viewer)) _ _
          (λ q. absurd (let holding = held in ground arith))
          (λ _.
            if_elim (λ x. x ≡ target) (not (is_some (lookup viewer s.viewports))) _ _
              (λ q. absurd (ground arith))
              (λ _.
                ap (λ o. inherit mirror w o freed) found
                ∙ ap (λ o. restore mirror w next.0 o freed) entry)) in
      let (size, authority) = restore_live w next.0 next.1 freed live kept in
      (
        ap (λ (x : Session M). x.size) done_ ∙ size,
        ap (λ (x : Session M). x.size_authority) done_ ∙ authority,
        latest,
      )
