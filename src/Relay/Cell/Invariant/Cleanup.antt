-- ===== src/Relay/Cell/Invariant/Cleanup.antt =====
-- `#cleanup`, `#refuse` and `#detach` of packages/relay-core/src/cell.ts keep the invariant, and leave
-- no map that names the connection.
use pherry.Base.{
  ℕ, ◌≡◌, ◌≢◌, ◌⊎◌, sym, ap, ◌∙◌, inl, inr, Bool, List, Option, some, ◌==◌, arith, Option-cases,
  Bool-cases, some_inj,
}
use pherry.Base.Maps.{lookup, delete, lookup-delete-some, lookup-delete}
use pherry.Relay.Cell.State.{
  Cell, Conn, PendingBridge, send, drop_host, drop_pending, Output, OuterMessage,
}
use pherry.Relay.Cell.Invariant.{IsSound, Inv, IsFree}

pub IsSound-record :
    (conn : Conn) (closed : Bool) (bridge : Option ℕ) (key : Option (List ℕ))
    → IsSound conn
    → IsSound (record conn { closed = closed; bridge = bridge; data_key = key })
IsSound-record conn closed bridge key v = record {
  fresh_ticket = v.fresh_ticket;
  wait_ticket = v.wait_ticket;
  wait_key = v.wait_key;
  challenged = v.challenged;
  bound = v.bound;
  unaccepted = v.unaccepted;
}

pub output-Inv : {s : Cell} (o : List Output) → Inv s → Inv (record s { output = o })
output-Inv o v = record {
  sound = v.sound;
  hosts = v.hosts;
  pending = v.pending;
  timers = v.timers;
  bridges = v.bridges;
  linked = v.linked;
  wired = v.wired;
}

pub send-Inv : {s : Cell} (c : ℕ) (m : OuterMessage) → Inv s → Inv (send c m s)
unfolding send
send-Inv {s} c m v = elim (Bool-cases (s.conns c).closed) [
  | inl gone ↦ rw gone v
  | inr open_ ↦ rw open_ (output-Inv _ v)
]

-- The maps are the same.
pub record SameMaps (s t : Cell) : Type 0 where
  pub hosts : t.hosts ≡ s.hosts
  pub pending : t.pending ≡ s.pending
  pub bridges : t.bridges ≡ s.bridges

pub IsFree-SameMaps : {c : ℕ} (s t : Cell) → SameMaps s t → IsFree c s → IsFree c t
IsFree-SameMaps s t m f = record {
  not_host = λ h e. f.not_host h (ap (lookup h) (sym m.hosts) ∙ e);
  not_pending = λ t' p e. f.not_pending t' p (ap (lookup t') (sym m.pending) ∙ e);
  not_bridged = λ i b e. f.not_bridged i b (ap (lookup i) (sym m.bridges) ∙ e);
}

pub send-SameMaps : (c : ℕ) (m : OuterMessage) (s : Cell) → SameMaps s (send c m s)
unfolding send
send-SameMaps c m s = ground arith

abbrev pub NoHost : ℕ → Cell → Type 0
NoHost c s = (h : ℕ) → lookup h s.hosts ≢ some c

abbrev pub NoPending : ℕ → Cell → Type 0
NoPending c s = (t : ℕ) (p : PendingBridge) → lookup t s.pending ≡ some p → p.controller ≢ c

pub delete_host-Inv : {s : Cell} (h : ℕ) → Inv s → Inv (record s { hosts = delete h s.hosts })
delete_host-Inv {s} h v = record {
  sound = v.sound;
  hosts = λ j c e. v.hosts j c (lookup-delete-some j h s.hosts e).0;
  pending = v.pending;
  timers = v.timers;
  bridges = v.bridges;
  linked = v.linked;
  wired = v.wired;
}

drop_host_cases :
    (c : ℕ) (s : Cell)
    → ((drop_host c s ≡ s) × ((h : ℕ) → (s.conns c).host_id ≡ some h → lookup h s.hosts ≢ some c))
      ⊎ ((h : ℕ) × ((s.conns c).host_id ≡ some h)
          × (drop_host c s ≡ record s { hosts = delete h s.hosts }))
unfolding drop_host
drop_host_cases c s = elim (Option-cases (s.conns c).host_id) [
  | inl e ↦ inl (rw (e, drop_host), λ h q. cc)
  | inr (h, e) ↦ elim (Option-cases (lookup h s.hosts)) [
    | inl q ↦ inl (rw (e, drop_host) (rw q), λ h' p. λ r. cc)
    | inr (c', q) ↦ elim (Bool-cases (c' == c)) [
      | inl hit ↦ inr (h, e, rw (e, drop_host) (rw q (rw hit)))
      | inr miss ↦ inl (rw (e, drop_host) (rw q (rw miss)), λ h' p. λ r. ground arith)
    ]
  ]
]

pub drop_host-Inv : {s : Cell} (c : ℕ) → Inv s → Inv (drop_host c s) × NoHost c (drop_host c s)
drop_host-Inv {s} c v = elim (drop_host_cases c s) [
  | inl (e, missing) ↦ rw e (v, λ h q. missing h (v.hosts h c q).host_id q)
  | inr (h, e, r) ↦ rw r (
    delete_host-Inv h v,
    λ j q.
        let (old, other) = lookup-delete-some j h s.hosts q in
        other (cc ((v.hosts j c old).host_id, e)),
  )
]

-- A pending bridge and its timer go together.
pub delete_pending-Inv :
    {s : Cell} (t : ℕ) (p : PendingBridge)
    → lookup t s.pending ≡ some p
    → Inv s
    → Inv (record s { timers = delete p.timer s.timers; pending = delete t s.pending })
delete_pending-Inv {s} t p e v = record {
  sound = v.sound;
  hosts = v.hosts;
  pending = λ j q r. v.pending j q (lookup-delete-some j t s.pending r).0;
  timers = λ j q r.
      let (old, other) = lookup-delete-some j t s.pending r in
      let (runs, bound) = v.timers j q old in
      (ground (arith, v.timers t p e, lookup-delete q.timer p.timer s.timers, runs, other), bound);
  bridges = v.bridges;
  linked = v.linked;
  wired = v.wired;
}

drop_pending_cases :
    (c : ℕ) (s : Cell)
    → ((drop_pending c s ≡ s)
        × ((t : ℕ) (p : PendingBridge)
            → (s.conns c).ticket ≡ some t
            → lookup t s.pending ≡ some p
            → p.controller ≢ c))
      ⊎ ((t : ℕ) × (p : PendingBridge) × ((s.conns c).ticket ≡ some t)
          × (lookup t s.pending ≡ some p)
          × (drop_pending c s
              ≡ record s { timers = delete p.timer s.timers; pending = delete t s.pending }))
unfolding drop_pending
drop_pending_cases c s = elim (Option-cases (s.conns c).ticket) [
  | inl e ↦ inl (rw (e, drop_pending), λ t p q. cc)
  | inr (t, e) ↦ elim (Option-cases (lookup t s.pending)) [
    | inl q ↦ inl (rw (e, drop_pending) (rw q), λ t' p' r r'. cc)
    | inr (p, q) ↦ elim (Bool-cases (p.controller == c)) [
      | inl hit ↦ inr (t, p, e, q, rw (e, drop_pending) (rw q (rw hit)))
      | inr miss ↦ inl (
        rw (e, drop_pending) (rw q (rw miss)),
        λ t' p' r r' same.
            let same_ticket : t ≡ t' = cc in
            let same_p : p ≡ p' = some_inj (sym q ∙ rw (← same_ticket) at r') in
            ground (arith, ap (λ x. x.controller) same_p),
      )
    ]
  ]
]

pub drop_pending-Inv :
    {s : Cell} (c : ℕ) → Inv s → Inv (drop_pending c s) × NoPending c (drop_pending c s)
drop_pending-Inv {s} c v = elim (drop_pending_cases c s) [
  | inl (e, missing) ↦ rw e (
    v,
    λ t p q same.
        missing t p (ap (λ d. (s.conns d).ticket) (sym same) ∙ (v.pending t p q).ticket) q same,
  )
  | inr (t, p, e, found, r) ↦ rw r (
    delete_pending-Inv t p found v,
    λ j q r' same.
        let (old, other) = lookup-delete-some j t s.pending r' in
        other
          (some_inj (sym e ∙ ap (λ d. (s.conns d).ticket) (sym same) ∙ (v.pending j q old).ticket)),
  )
]

pub drop_pending-hosts : (c : ℕ) (s : Cell) → (drop_pending c s).hosts ≡ s.hosts
drop_pending-hosts c s = elim (drop_pending_cases c s) [
  | inl (e, _) ↦ rw e
  | inr (_, _, _, _, r) ↦ rw r
]
