-- ===== src/Relay/Cell/Invariant/Detach.antt =====
-- `#cleanup`, `#refuse` and `#detach` of packages/relay-core/src/cell.ts: the bridge, the key, and the
-- whole.
use pherry.Base.{
  ℕ, ◌≡◌, ◌≢◌, ◌⊎◌, refl, sym, ap, ◌∙◌, inl, inr, Bool, true, List, Option, none, some, ◌==◌,
  Option-cases, Bool-cases, some_inj,
}
use pherry.Base.Maps.{lookup, delete, lookup-delete-some}
use pherry.Relay.Cell.State.{
  Cell, Bridge, set_conn, close_conn, drop_host, drop_pending, drop_bridge, drop_key, cleanup,
  refuse, detach, unlink, RelayCloseCode, close, controller_data, host_data,
}
use pherry.Relay.Cell.Invariant.{Inv, IsFree}
use pherry.Relay.Cell.Invariant.Swap.{set_conn-Inv}
use pherry.Relay.Cell.Invariant.Cleanup.{
  IsSound-record, send-Inv, IsFree-SameMaps, NoHost, NoPending, drop_host-Inv, drop_pending-Inv,
  drop_pending-hosts,
}

abbrev pub NoBridge : ℕ → Cell → Type 0
NoBridge c s =
    (i : ℕ) (b : Bridge) → lookup i s.bridges ≡ some b → (b.controller ≢ c) × (b.host ≢ c)

-- Closing, unlinking and wiping a connection that no map names.
touch-Inv :
    {s : Cell} (c : ℕ) (closed : Bool) (bridge : Option ℕ) (key : Option (List ℕ))
    → (bridge ≡ none) ⊎ (bridge ≡ (s.conns c).bridge)
    → IsFree c s
    → Inv s
    → Inv (set_conn c (record (s.conns c) { closed = closed; bridge = bridge; data_key = key }) s)
touch-Inv {s} c closed bridge key l f v = set_conn-Inv v c _ (record {
  free = f;
  sound = IsSound-record (s.conns c) closed bridge key (v.sound c);
  links = l;
  wires = inr (record { role = refl; ticket = refl; host_id = refl; raw_peer = refl });
})

pub close_conn-Inv : {s : Cell} (c : ℕ) → IsFree c s → Inv s → Inv (close_conn c s)
unfolding close_conn
close_conn-Inv {s} c f v = touch-Inv c true (s.conns c).bridge (s.conns c).data_key (inr refl) f v

pub close_conn-IsFree : {s : Cell} (c d : ℕ) → IsFree c s → IsFree c (close_conn d s)
unfolding close_conn
close_conn-IsFree {s} c d f =
    IsFree-SameMaps s (close_conn d s) (record { hosts = refl; pending = refl; bridges = refl }) f

unlink-Inv : {s : Cell} (c : ℕ) → IsFree c s → Inv s → Inv (unlink c s)
unfolding unlink
unlink-Inv {s} c f v = touch-Inv c (s.conns c).closed none (s.conns c).data_key (inl refl) f v

unlink-IsFree : {s : Cell} (c d : ℕ) → IsFree c s → IsFree c (unlink d s)
unfolding unlink
unlink-IsFree {s} c d f =
    IsFree-SameMaps s (unlink d s) (record { hosts = refl; pending = refl; bridges = refl }) f

drop_key-Inv : {s : Cell} (c : ℕ) → IsFree c s → Inv s → Inv (drop_key c s)
unfolding drop_key
drop_key-Inv {s} c f v = touch-Inv c (s.conns c).closed none none (inl refl) f v

drop_key-IsFree : {s : Cell} (c : ℕ) → IsFree c s → IsFree c (drop_key c s)
unfolding drop_key
drop_key-IsFree {s} c f =
    IsFree-SameMaps s (drop_key c s) (record { hosts = refl; pending = refl; bridges = refl }) f

delete_bridge-Inv : {s : Cell} (i : ℕ) → Inv s → Inv (record s { bridges = delete i s.bridges })
delete_bridge-Inv {s} i v = record {
  sound = v.sound;
  hosts = v.hosts;
  pending = v.pending;
  timers = v.timers;
  bridges = λ j b e. v.bridges j b (lookup-delete-some j i s.bridges e).0;
  linked = λ c j e.
      let (bound, named) = v.linked c j e in
      (bound, λ b q. named b (lookup-delete-some j i s.bridges q).0);
  wired = v.wired;
}

-- An end of a bridge.
IsEnd : Bridge → ℕ → Type 0
IsEnd b d = (b.controller ≡ d) ⊎ (b.host ≡ d)

end_link :
    {s : Cell}
    → Inv s
    → (i : ℕ) (b : Bridge) (d : ℕ) → lookup i s.bridges ≡ some b
    → IsEnd b d
    → (s.conns d).bridge ≡ some i
unfolding IsEnd
end_link v i b d e (inl q) = rw (← q) (v.bridges i b e).0.controller_link
end_link v i b d e (inr q) = rw (← q) (v.bridges i b e).0.host_link

end_role :
    {s : Cell}
    → Inv s
    → (i : ℕ) (b : Bridge) (d : ℕ) → lookup i s.bridges ≡ some b
    → IsEnd b d
    → ((s.conns d).role ≡ controller_data) ⊎ ((s.conns d).role ≡ host_data)
unfolding IsEnd
end_role v i b d e (inl q) = inl (rw (← q) (v.bridges i b e).0.controller_role)
end_role v i b d e (inr q) = inr (rw (← q) (v.bridges i b e).0.host_role)

end_peer :
    {s : Cell}
    → Inv s
    → (i : ℕ) (b : Bridge) (d : ℕ) → lookup i s.bridges ≡ some b
    → IsEnd b d
    → (s.conns d).raw_peer ≢ none
unfolding IsEnd
end_peer {s} v i b d e (inl q) r =
    cc ((v.bridges i b e).0.controller_peer, ap (λ x. (s.conns x).raw_peer) q)
end_peer {s} v i b d e (inr q) r =
    cc ((v.bridges i b e).0.host_peer, ap (λ x. (s.conns x).raw_peer) q)

-- A bridge is the only entry that names its ends.
NoBridge-deleted :
    {s : Cell}
    → Inv s
    → (i d : ℕ) → (s.conns d).bridge ≡ some i
    → NoBridge d (record s { bridges = delete i s.bridges })
unfolding IsEnd
NoBridge-deleted {s} v i d l j b e =
    let (old, other) = lookup-delete-some j i s.bridges e in
    (
      λ q. other (some_inj (sym l ∙ end_link v j b d old (inl q))),
      λ q. other (some_inj (sym l ∙ end_link v j b d old (inr q))),
    )

end_IsFree :
    {s : Cell}
    → Inv s
    → (i : ℕ) (b : Bridge) (d : ℕ) → lookup i s.bridges ≡ some b
    → IsEnd b d
    → IsFree d (record s { bridges = delete i s.bridges })
end_IsFree {s} v i b d e end_ = record {
  not_host = λ h q. elim (end_role v i b d e end_) [
    | inl r ↦ cc ((v.hosts h d q).role, r)
    | inr r ↦ cc ((v.hosts h d q).role, r)
  ];
  not_pending = λ t p q same.
      end_peer v i b d e end_
        (ap (λ x. (s.conns x).raw_peer) (sym same) ∙ (v.pending t p q).unwired);
  not_bridged = NoBridge-deleted v i d (end_link v i b d e end_);
}

drop_bridge_cases :
    (c : ℕ) (s : Cell)
    → ((drop_bridge c s ≡ s)
        × ((i : ℕ) (b : Bridge) → (s.conns c).bridge ≡ some i → lookup i s.bridges ≢ some b))
      ⊎ ((i : ℕ) × (b : Bridge) × (peer : ℕ) × ((s.conns c).bridge ≡ some i)
          × (lookup i s.bridges ≡ some b)
          × IsEnd b peer
          × (drop_bridge c s
              ≡ close_conn peer (unlink peer (record s { bridges = delete i s.bridges }))))
unfolding drop_bridge IsEnd
drop_bridge_cases c s = elim (Option-cases (s.conns c).bridge) [
  | inl e ↦ inl (rw (e, drop_bridge), λ i b q. cc)
  | inr (i, e) ↦ elim (Option-cases (lookup i s.bridges)) [
    | inl q ↦ inl (rw (e, drop_bridge) (rw q), λ i' b r r'. cc)
    | inr (b, q) ↦ elim (Bool-cases (b.controller == c)) [
      | inl hit ↦ inr (i, b, b.host, e, q, inr refl, rw (e, drop_bridge) (rw q (rw hit)))
      | inr miss ↦ inr (i, b, b.controller, e, q, inl refl, rw (e, drop_bridge) (rw q (rw miss)))
    ]
  ]
]

drop_bridge-Inv :
    {s : Cell} (c : ℕ)
    → NoHost c s
    → NoPending c s
    → Inv s
    → Inv (drop_bridge c s) × IsFree c (drop_bridge c s)
unfolding IsEnd
drop_bridge-Inv {s} c nh np v = elim (drop_bridge_cases c s) [
  | inl (e, missing) ↦ rw e (
    v,
    record {
      not_host = nh;
      not_pending = np;
      not_bridged = λ i b q. (
        λ r. missing i b (end_link v i b c q (inl r)) q,
        λ r. missing i b (end_link v i b c q (inr r)) q,
      );
    },
  )
  | inr (i, b, peer, l, q, end_, r) ↦
      let w = delete_bridge-Inv i v in
      let f = end_IsFree v i b peer q end_ in
      let g : IsFree c (record s { bridges = delete i s.bridges }) = record {
        not_host = nh;
        not_pending = np;
        not_bridged = NoBridge-deleted v i c l;
      } in
      rw r (
        close_conn-Inv peer (unlink-IsFree peer peer f) (unlink-Inv peer f w),
        close_conn-IsFree c peer (unlink-IsFree c peer g),
      )
]

pub cleanup-Inv : {s : Cell} (c : ℕ) → Inv s → Inv (cleanup c s) × IsFree c (cleanup c s)
unfolding cleanup
cleanup-Inv {s} c v =
    let (v1, nh) = drop_host-Inv c v in
    let (v2, np) = drop_pending-Inv c v1 in
    let nh2 : NoHost c (drop_pending c (drop_host c s)) =
      λ h. rw (drop_pending-hosts c (drop_host c s)) (nh h) in
    let (v3, f) = drop_bridge-Inv c nh2 np v2 in (drop_key-Inv c f v3, drop_key-IsFree c f)

pub refuse-Inv :
    {s : Cell} (c : ℕ) (code : RelayCloseCode)
    → Inv s
    → Inv (refuse c code s) × IsFree c (refuse c code s)
unfolding refuse
refuse-Inv {s} c code v =
    let (w, f) = cleanup-Inv c (send-Inv c (close code) v) in
    (close_conn-Inv c f w, close_conn-IsFree c c f)

pub detach-Inv : {s : Cell} (c : ℕ) → Inv s → Inv (detach c s) × IsFree c (detach c s)
unfolding detach
detach-Inv {s} c v = let (w, f) = cleanup-Inv c v in (close_conn-Inv c f w, close_conn-IsFree c c f)
