-- ===== src/Protocol/Capabilities.antt =====
-- protocol/src/capabilities.ts: the capabilities that both peers advertise. A capability string is a
-- number, since the code only compares them.
use pherry.Base.{
  ℕ, ◌≡◌, refl, sym, ap, ◌∙◌, ℕ_discrete, Bool, true, false, ◌&&◌, ◌==◌, List, [], ◌∷◌,
  if◌then◌else◌, arith, Bool-cases, inl, inr,
}
use pherry.Base.Maps.{member, add}

-- The loop of `negotiate`, with the set so far.
unfoldable pub active_from : List ℕ → List ℕ → List ℕ → List ℕ
active_from offered active [] = active
active_from offered active (cap ∷ a) =
    active_from offered (if member cap offered then add cap active else active) a

-- `new Set(b)`
unfoldable pub set_of : List ℕ → List ℕ → List ℕ
set_of s [] = s
set_of s (cap ∷ b) = set_of (add cap s) b

-- `negotiate`
unfoldable pub negotiate : List ℕ → List ℕ → List ℕ
negotiate a b = active_from (set_of [] b) [] a

pub member-add : (x k : ℕ) (s : List ℕ) → member x (add k s) ≡ (if k == x then true else member x s)
unfolding member add
member-add x k [] = refl
member-add x k (j ∷ s) = ground (arith, member-add x k s)

member-set_of :
    (x : ℕ) (s b : List ℕ) → member x (set_of s b) ≡ (if member x s then true else member x b)
unfolding set_of member
member-set_of x s [] = ground arith
member-set_of x s (cap ∷ b) = ground (arith, member-set_of x (add cap s) b, member-add x cap s)

kept :
    (x cap : ℕ) (offered active : List ℕ)
    → member x (if member cap offered then add cap active else active)
      ≡ (if member x active then true else if cap == x then member x offered else false)
kept x cap offered active = elim (ℕ_discrete cap x) [
  | yes e ↦ rw (e) (ground (arith, member-add x x active))
  | no e ↦ ground (arith, member-add x cap active)
]

split :
    (p q r t : Bool)
    → (if (if p then true else if q then r else false) then true else r && t)
      ≡ (if p then true else r && (if q then true else t))
split true q r t = refl
split false true true t = refl
split false true false t = refl
split false false r t = refl

and_comm : (p q : Bool) → (p && q) ≡ (q && p)
and_comm true true = refl
and_comm true false = refl
and_comm false true = refl
and_comm false false = refl

member-active_from :
    (x : ℕ) (offered active a : List ℕ)
    → member x (active_from offered active a)
      ≡ (if member x active then true else member x offered && member x a)
unfolding active_from member
member-active_from x offered active [] = elim (Bool-cases (member x offered)) [
  | inl e ↦ ground arith
  | inr e ↦ ground arith
]
member-active_from x offered active (cap ∷ a) =
    let next = if member cap offered then add cap active else active in
    let step : member x (active_from offered next a) ≡ (
        if (if member x active then true else if cap == x then member x offered else false)
        then true
        else member x offered && member x a) =
      rw (← kept x cap offered active) (member-active_from x offered next a) in
    step ∙ split (member x active) (cap == x) (member x offered) (member x a)

agreed : (x : ℕ) (a b : List ℕ) → member x (negotiate a b) ≡ (member x a && member x b)
unfolding negotiate member
agreed x a b =
    member-active_from x (set_of [] b) [] a
    ∙ ap (λ q. q && member x a) (member-set_of x [] b)
    ∙ and_comm (member x b) (member x a)

-- A capability is active exactly if both peers advertise it, and so whichever peer negotiates.
pub member-negotiate :
    (x : ℕ) (a b : List ℕ)
    → (member x (negotiate a b) ≡ (member x a && member x b))
      × (member x (negotiate a b) ≡ member x (negotiate b a))
member-negotiate x a b =
    (agreed x a b, agreed x a b ∙ and_comm (member x a) (member x b) ∙ sym (agreed x b a))
