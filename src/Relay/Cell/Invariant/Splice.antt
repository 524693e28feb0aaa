-- ===== src/Relay/Cell/Invariant/Splice.antt =====
-- `#splice` and `#completeHostDial` of packages/relay-core/src/cell.ts keep the invariant.
use pherry.Base.{
  ℕ, suc, ◌≡◌, ◌≢◌, ◌<◌, ◌⊎◌, refl, sym, ap, subst, ◌∙◌, inl, inr, Option, none, some, arith,
  some_inj, ℕ_discrete,
}
use pherry.Base.Maps.{lookup, insert, lookup-insert-some, update, update_self, update_ne}
use pherry.Relay.Cell.State.{Cell, Conn, Bridge, controller_data, host_data}
use pherry.Relay.Cell.Bridging.{link}
use pherry.Relay.Cell.Invariant.{IsSound, IsWired, Inv, IsFree}

IsSound-wired :
    (conn : Conn) (bridge raw_peer : Option ℕ)
    → IsSound conn
    → IsSound (record conn { bridge = bridge; raw_peer = raw_peer })
IsSound-wired conn bridge raw_peer v = record {
  fresh_ticket = v.fresh_ticket;
  wait_ticket = v.wait_ticket;
  wait_key = v.wait_key;
  challenged = v.challenged;
  bound = v.bound;
  unaccepted = v.unaccepted;
}

-- A controller `a` and a host `b` that no map names, with one ticket for one host.
pub record IsPair (s : Cell) (a b t : ℕ) : Type 0 where
  pub controller_free : IsFree a s
  pub host_free : IsFree b s
  pub controller_role : (s.conns a).role ≡ controller_data
  pub host_role : (s.conns b).role ≡ host_data
  pub controller_ticket : (s.conns a).ticket ≡ some t
  pub host_ticket : (s.conns b).ticket ≡ some t
  pub host_id : (s.conns b).host_id ≡ (s.conns a).host_id
  pub controller_unwired : (s.conns a).raw_peer ≡ none
  pub host_unwired : (s.conns b).raw_peer ≡ none

module _ {s : Cell} (inv : Inv s) (a b t : ℕ) (pair : IsPair s a b t) where
  abbrev controller : Conn
  controller = record (s.conns a) { bridge = some s.next_bridge; raw_peer = some b }

  abbrev host : Conn
  host = record (s.conns b) { bridge = some s.next_bridge; raw_peer = some a }

  abbrev after : ℕ → Conn
  after = update (update s.conns a controller) b host

  apart : a ≢ b
  apart q = cc (pair.controller_role, pair.host_role, ap (λ x. (s.conns x).role) q)

  at_host : after b ≡ host
  at_host = update_self (update s.conns a controller) b host

  at_controller : after a ≡ controller
  at_controller =
      update_ne (update s.conns a controller) b a host (λ q. apart (sym q))
      ∙ update_self s.conns a controller

  elsewhere : (j : ℕ) → a ≢ j → b ≢ j → after j ≡ s.conns j
  elsewhere j p q =
      update_ne (update s.conns a controller) b j host q ∙ update_ne s.conns a j controller p

  by_place : (P : ℕ → Type 0) (j : ℕ) → P a → P b → (a ≢ j → b ≢ j → P j) → P j
  by_place P j pa pb pj = elim (ℕ_discrete a j) [
    | yes here ↦ subst P here pa
    | no p ↦ elim (ℕ_discrete b j) [ yes here ↦ subst P here pb | no q ↦ pj p q ]
  ]

  bridge : Bridge
  bridge = record { ticket = t; controller = a; host = b }

  linked_pair :
      (j i : ℕ)
      → (after j).bridge ≡ some i
      → (i < suc s.next_bridge)
        × ((x : Bridge)
            → lookup i (insert s.next_bridge bridge s.bridges) ≡ some x
            → (x.controller ≡ j) ⊎ (x.host ≡ j))
  unfolding bridge
  linked_pair j i =
      by_place
        (λ j.
          (after j).bridge ≡ some i
          → (i < suc s.next_bridge)
            × ((x : Bridge)
                → lookup i (insert s.next_bridge bridge s.bridges) ≡ some x
                → (x.controller ≡ j) ⊎ (x.host ≡ j)))
        j
        (λ e.
          let same : s.next_bridge ≡ i = some_inj (sym (ap (λ x. x.bridge) at_controller) ∙ e) in
          (
            ground arith,
            λ x q. elim (lookup-insert-some i s.next_bridge bridge s.bridges q) [
              | inl (_, r) ↦ inl (sym (ap (λ x. x.controller) r))
              | inr (other, _) ↦ absurd (other same)
            ],
          ))
        (λ e.
          let same : s.next_bridge ≡ i = some_inj (sym (ap (λ x. x.bridge) at_host) ∙ e) in
          (
            ground arith,
            λ x q. elim (lookup-insert-some i s.next_bridge bridge s.bridges q) [
              | inl (_, r) ↦ inr (sym (ap (λ x. x.host) r))
              | inr (other, _) ↦ absurd (other same)
            ],
          ))
        (λ p q e.
          let (bound, named) = inv.linked j i (sym (ap (λ x. x.bridge) (elsewhere j p q)) ∙ e) in
          (
            ground arith,
            λ x r. elim (lookup-insert-some i s.next_bridge bridge s.bridges r) [
              | inl (same, _) ↦ ground arith
              | inr (_, old) ↦ named x old
            ],
          ))

  IsWired-pair : (x d : ℕ) → (after x).raw_peer ≡ some d → IsWired x (after x) (after d)
  IsWired-pair x d =
      by_place (λ x. (after x).raw_peer ≡ some d → IsWired x (after x) (after d)) x
        (λ e.
          let same : b ≡ d = some_inj (sym (ap (λ x. x.raw_peer) at_controller) ∙ e) in
          rw (at_controller, ← same, at_host)
            (record {
              ticketed = λ q. cc (pair.controller_ticket, q);
              ticket = pair.host_ticket ∙ sym pair.controller_ticket;
              host_id = pair.host_id;
              roles = inl (pair.controller_role, pair.host_role);
              back = refl;
            }))
        (λ e.
          let same : a ≡ d = some_inj (sym (ap (λ x. x.raw_peer) at_host) ∙ e) in
          rw (at_host, ← same, at_controller)
            (record {
              ticketed = λ q. cc (pair.host_ticket, q);
              ticket = pair.controller_ticket ∙ sym pair.host_ticket;
              host_id = sym pair.host_id;
              roles = inr (pair.host_role, pair.controller_role);
              back = refl;
            }))
        (λ p q e.
          let old = inv.wired x d (sym (ap (λ x. x.raw_peer) (elsewhere x p q)) ∙ e) in
          let a_other : a ≢ d =
            λ r. cc (old.back, ap (λ x. (s.conns x).raw_peer) r, pair.controller_unwired) in
          let b_other : b ≢ d =
            λ r. cc (old.back, ap (λ x. (s.conns x).raw_peer) r, pair.host_unwired) in
          rw (elsewhere x p q, elsewhere d a_other b_other) old)

  pair-Inv : Inv (record s {
    conns = after;
    bridges = insert s.next_bridge bridge s.bridges;
    next_bridge = suc s.next_bridge;
  })
  unfolding bridge
  pair-Inv = record {
    sound = λ j.
        by_place (λ j. IsSound (after j)) j
          (rw at_controller (IsSound-wired (s.conns a) _ _ (inv.sound a)))
          (rw at_host (IsSound-wired (s.conns b) _ _ (inv.sound b)))
          (λ p q. rw (elsewhere j p q) (inv.sound j));
    hosts = λ h d e.
        rw
          (elsewhere d (λ q. pair.controller_free.not_host h (e ∙ ap some (sym q)))
            (λ q. pair.host_free.not_host h (e ∙ ap some (sym q))))
          (inv.hosts h d e);
    pending = λ t' p e.
        rw
          (elsewhere p.controller (λ q. pair.controller_free.not_pending t' p e (sym q))
            (λ q. pair.host_free.not_pending t' p e (sym q)))
          (inv.pending t' p e);
    timers = inv.timers;
    bridges = λ i x e. elim (lookup-insert-some i s.next_bridge bridge s.bridges e) [
      | inl (same, r) ↦
          rw (← same, ← r, at_controller, at_host)
            (
              record {
                controller_link = refl;
                host_link = refl;
                controller_peer = refl;
                host_peer = refl;
                controller_role = pair.controller_role;
                host_role = pair.host_role;
                controller_ticket = pair.controller_ticket;
                host_ticket = pair.host_ticket;
              },
              ground arith,
            )
      | inr (_, old) ↦
          let (ends, bound) = inv.bridges i x old in
          let f = pair.controller_free.not_bridged i x old in
          let g = pair.host_free.not_bridged i x old in
          (
            rw
                (
                  elsewhere x.controller (λ q. f.0 (sym q)) (λ q. g.0 (sym q)),
                  elsewhere x.host (λ q. f.1 (sym q)) (λ q. g.1 (sym q)),
                )
                ends,
            ground arith,
          )
    ];
    linked = linked_pair;
    wired = IsWired-pair;
  }

  pub link-Inv : Inv (link a b t s)
  unfolding link bridge
  link-Inv =
      subst
        (λ x. Inv (record s {
          conns =
              update (update s.conns a controller) b
                (record x { bridge = some s.next_bridge; raw_peer = some a });
          bridges = insert s.next_bridge bridge s.bridges;
          next_bridge = suc s.next_bridge;
        }))
        (sym (update_ne s.conns a b controller apart)) pair-Inv
