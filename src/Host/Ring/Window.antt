-- ===== src/Host/Ring/Window.antt =====
-- What packages/host/src/session/ring.ts keeps: never more than the cap, and always an end of the
-- output so far.
use pherry.Base.{
  ℕ, ◌+◌, ◌-◌, ◌≤◌, ◌<◌, ◌≡◌, refl, sym, ap, subst, ◌∙◌, List, [], ◌∷◌, ◌++◌, some, ltb, length,
  drop, flatten, arith, length-drop, length-append, flatten-append, inl, inr, ◌⊎◌, take,
  take-append-drop, append_assoc, append-nil, Bool-cases, ltb→lt,
}
use native.Mathlib.Nat.{sub_self}
use pherry.Host.Ring.{ByteRing, new_ring, evict, trim, append, concat}

-- The retained bytes, oldest first.
abbrev pub content : ByteRing → List ℕ
content r = flatten r.chunks

-- The count is the number of retained bytes, and these fit a positive cap.
pub record IsValid (r : ByteRing) : Type 0 where
  pub counted : r.byte_length ≡ length (content r)
  pub bounded : r.byte_length ≤ r.max_bytes
  pub positive : 0 < r.max_bytes

-- `ys` is an end of `xs`.
abbrev pub IsSuffix : List ℕ → List ℕ → Type 0
IsSuffix ys xs = (dropped : List ℕ) × (dropped ++ ys ≡ xs)

-- Eviction keeps an end of the chunks and an exact count, and stops within the cap or at one chunk.
record Evicted (cap : ℕ) (chunks : List (List ℕ)) (kept : List (List ℕ)) (count : ℕ) : Type 0 where
  suffix : IsSuffix (flatten kept) (flatten chunks)
  counted : count ≡ length (flatten kept)
  stopped : (count ≤ cap) ⊎ ((only : List ℕ) × (kept ≡ only ∷ []))

evict-Evicted :
    (cap : ℕ) (chunks : List (List ℕ)) (bytes : ℕ)
    → bytes ≡ length (flatten chunks)
    → Evicted cap chunks (evict cap chunks bytes).0 (evict cap chunks bytes).1
unfolding evict
evict-Evicted cap [] bytes h = record {
  suffix = ([], refl);
  counted = h;
  stopped = inl (omega arith);
}
evict-Evicted cap (only ∷ []) bytes h = record {
  suffix = ([], refl);
  counted = h;
  stopped = inr (only, refl);
}
evict-Evicted cap (removed ∷ next ∷ chunks) bytes h = elim (Bool-cases (ltb cap bytes)) [
  | inl over ↦
      let rest =
        evict-Evicted cap (next ∷ chunks) (bytes - length removed)
          (omega (arith, length-append removed (flatten (next ∷ chunks)))) in
      rw over (record {
        suffix = (
          removed ++ rest.suffix.0,
          append_assoc removed rest.suffix.0 _ ∙ ap (λ (l : List ℕ). removed ++ l) rest.suffix.1,
        );
        counted = rest.counted;
        stopped = rest.stopped;
      })
  | inr fits ↦ rw fits (record { suffix = ([], refl); counted = h; stopped = inl (ground arith) })
]

-- The last step keeps an end too, and its count is within the cap.
trim-Evicted :
    (cap : ℕ) (chunks : List (List ℕ)) (count : ℕ)
    → count ≡ length (flatten chunks)
    → (count ≤ cap) ⊎ ((only : List ℕ) × (chunks ≡ only ∷ []))
    → IsSuffix (flatten (trim cap chunks count).0) (flatten chunks)
      × ((trim cap chunks count).1 ≡ length (flatten (trim cap chunks count).0))
      × ((trim cap chunks count).1 ≤ cap)
      × (count ≤ cap → (flatten (trim cap chunks count).0) ≡ flatten chunks)
unfolding trim
trim-Evicted cap [] count h s = (([], refl), h, omega arith, λ _. refl)
trim-Evicted cap (only ∷ []) count h s = elim (Bool-cases (ltb cap count)) [
  | inl over ↦
      let size : length only ≡ count = omega (arith, length-append only []) in
      let cut = length only - cap in
      rw (over, append-nil (drop cut only), append-nil only)
        (
          (take cut only, take-append-drop cut only),
          refl,
          omega (arith, length-drop cut only, ltb→lt cap count over),
          λ fits. absurd (omega (arith, ltb→lt cap count over)),
        )
  | inr fits ↦ rw fits (([], refl), h, ground arith, λ _. refl)
]
trim-Evicted cap (a ∷ b ∷ chunks) count h (inl fits) = (([], refl), h, fits, λ _. refl)
trim-Evicted cap (a ∷ b ∷ chunks) count h (inr (only, e)) = cc

evict_fits :
    (cap : ℕ) (chunks : List (List ℕ)) (bytes : ℕ)
    → bytes ≤ cap
    → evict cap chunks bytes ≡ (chunks, bytes)
unfolding evict
evict_fits cap [] bytes h = refl
evict_fits cap (only ∷ []) bytes h = refl
evict_fits cap (a ∷ b ∷ chunks) bytes h = ground arith

suffix_trans : {xs ys zs : List ℕ} → IsSuffix xs ys → IsSuffix ys zs → IsSuffix xs zs
suffix_trans {xs} (d, e) (d', e') =
    (d' ++ d, append_assoc d' d xs ∙ ap (λ (l : List ℕ). d' ++ l) e ∙ e')

suffix_append : {xs ys : List ℕ} (zs : List ℕ) → IsSuffix xs ys → IsSuffix (xs ++ zs) (ys ++ zs)
suffix_append {xs} zs (d, e) = (d, sym (append_assoc d xs zs) ∙ ap (λ (l : List ℕ). l ++ zs) e)

-- One chunk of output: what is kept is an end of the old bytes and the new ones, all of them if they
-- fit, and the ring stays valid under the same cap.
record Appended (r : ByteRing) (bytes : List ℕ) (r' : ByteRing) : Type 0 where
  valid : IsValid r'
  cap : r'.max_bytes ≡ r.max_bytes
  suffix : IsSuffix (content r') (content r ++ bytes)
  whole : length (content r) + length bytes ≤ r.max_bytes → content r' ≡ content r ++ bytes

abbrev kept : ByteRing → List ℕ → List (List ℕ) × ℕ
kept r bytes = evict r.max_bytes (r.chunks ++ bytes ∷ []) (r.byte_length + length bytes)

append_some :
    (r : ByteRing) (b : ℕ) (bytes : List ℕ)
    → append r (b ∷ bytes) ≡ record r {
      chunks = (trim r.max_bytes (kept r (b ∷ bytes)).0 (kept r (b ∷ bytes)).1).0;
      byte_length = (trim r.max_bytes (kept r (b ∷ bytes)).0 (kept r (b ∷ bytes)).1).1;
    }
unfolding append
append_some r b bytes = ground arith

append_none : (r : ByteRing) → append r [] ≡ r
unfolding append
append_none r = refl

append-Appended : (r : ByteRing) (bytes : List ℕ) → IsValid r → Appended r bytes (append r bytes)
append-Appended r [] v = rw (append_none r) (record {
  valid = v;
  cap = refl;
  suffix = ([], sym (append-nil (content r)));
  whole = λ _. sym (append-nil (content r));
})
append-Appended r (b ∷ bytes) v =
    let all = r.chunks ++ (b ∷ bytes) ∷ [] in
    let flat : flatten all ≡ content r ++ b ∷ bytes =
      flatten-append r.chunks ((b ∷ bytes) ∷ [])
      ∙ ap (λ (l : List ℕ). content r ++ l) (append-nil (b ∷ bytes)) in
    let size = r.byte_length + length (b ∷ bytes) in
    let exact : size ≡ length (flatten all) =
      rw flat (omega (arith, v.counted, length-append (content r) (b ∷ bytes))) in
    let ev = evict-Evicted r.max_bytes all size exact in
    let (suffix, counted, bounded, same) =
      trim-Evicted r.max_bytes (evict r.max_bytes all size).0 (evict r.max_bytes all size).1
        ev.counted ev.stopped in
    rw (append_some r b bytes) (record {
      valid = record { counted = counted; bounded = bounded; positive = v.positive };
      cap = refl;
      suffix = subst (IsSuffix _) flat (suffix_trans suffix ev.suffix);
      whole = λ fits.
          let all_kept = evict_fits r.max_bytes all size (omega (arith, v.counted)) in
          same (rw all_kept (omega (arith, v.counted))) ∙ ap (λ p. flatten p.0) all_kept ∙ flat;
    })

unfoldable pub append_all : List (List ℕ) → ByteRing → ByteRing
append_all [] r = r
append_all (chunk ∷ chunks) r = append_all chunks (append r chunk)

append_all-Appended :
    (chunks : List (List ℕ)) (r : ByteRing)
    → IsValid r
    → Appended r (flatten chunks) (append_all chunks r)
unfolding append_all
append_all-Appended [] r v = record {
  valid = v;
  cap = refl;
  suffix = ([], sym (append-nil (content r)));
  whole = λ _. sym (append-nil (content r));
}
append_all-Appended (chunk ∷ chunks) r v =
    let one = append-Appended r chunk v in
    let rest = append_all-Appended chunks (append r chunk) one.valid in
    let assoc = append_assoc (content r) chunk (flatten chunks) in
    record {
      valid = rest.valid;
      cap = rest.cap ∙ one.cap;
      suffix = rw (← assoc) (suffix_trans rest.suffix (suffix_append (flatten chunks) one.suffix));
      whole = λ fits.
          let now = one.whole (omega (arith, length-append chunk (flatten chunks))) in
          rest.whole (
            omega (
              arith,
              ap length now,
              one.cap,
              length-append (content r) chunk,
              length-append chunk (flatten chunks),
            ))
          ∙ ap (λ (l : List ℕ). l ++ flatten chunks) now
          ∙ assoc;
    }

concat-content : (r : ByteRing) → IsValid r → concat r ≡ some (content r)
unfolding concat
concat-content r v =
    ground (arith, v.counted, sub_self (length (content r)), append-nil (content r))

-- After any output a ring of cap `cap` gives back an end of the whole output, of at most `cap` bytes,
-- and the whole output if that fits.
pub concat-append_all :
    (cap : ℕ) (chunks : List (List ℕ)) (r : ByteRing)
    → new_ring cap ≡ some r
    → (out : List ℕ) × (concat (append_all chunks r) ≡ some out)
      × IsSuffix out (flatten chunks)
      × (length out ≤ cap)
      × (length (flatten chunks) ≤ cap → out ≡ flatten chunks)
unfolding new_ring
concat-append_all cap chunks r e =
    let fields : (r.chunks ≡ []) × (r.byte_length ≡ 0) × (r.max_bytes ≡ cap) × (0 < cap) =
      ground arith in
    let v : IsValid r = record {
      counted = rw fields.0 fields.1;
      bounded = omega arith;
      positive = omega arith;
    } in
    let a = append_all-Appended chunks r v in
    let old : content r ≡ [] = ap flatten fields.0 in
    (
      content (append_all chunks r),
      concat-content _ a.valid,
      subst (λ l. IsSuffix (content (append_all chunks r)) (l ++ flatten chunks)) old a.suffix,
      omega (arith, a.valid.counted, a.valid.bounded, a.cap),
      λ fits. a.whole (omega (arith, ap length old)) ∙ ap (λ (l : List ℕ). l ++ flatten chunks) old,
    )
