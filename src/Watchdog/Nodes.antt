-- ===== src/Watchdog/Nodes.antt =====
-- Theorems on `detect_transitions` of services/node_watchdog.py.
use sentry_backend.Base.{
  ℕ, ◌≡◌, refl, sym, ap, ◌∙◌, Bool, true, false, not, ◌&&◌, ◌||◌, List, [], ◌∷◌, ◌++◌, ◌==◌,
  if◌then◌else◌, arith,
}
use mathlib.Core.List.{append-nil}
use sentry_backend.Base.Lists.{filter_by, All, All-map, filter_cong, filter_none, append_if}
use sentry_backend.Base.Eq.{nat_eq}
use sentry_backend.Base.Sets.{IdSet, member, member-add, member-discard, member-intersection}
use sentry_backend.Watchdog.{
  Node, is_offline, Sweep, sweep_node, sweep_nodes, begin_sweep, detect_transitions,
}

-- Whether a node of the list has the id.
abbrev pub listed : ℕ → List Node → Bool
listed x [] = false
listed x (n ∷ ns) = n.id == x || listed x ns

-- No two nodes have the same id: `id` is the primary key.
abbrev pub Distinct : List Node → Type 0
Distinct [] = Unit
Distinct (n ∷ ns) = (listed n.id ns ≡ false) × Distinct ns

-- Whether the listed node with this id is offline.
abbrev pub offline_id : ℕ → ℕ → ℕ → List Node → Bool
offline_id now after x [] = false
offline_id now after x (n ∷ ns) =
    if n.id == x then is_offline n now after else offline_id now after x ns

step_member :
    (now after : ℕ) (n : Node) (s : Sweep) (x : ℕ)
    → member x (sweep_node now after n s).notified
      ≡ (if n.id == x then is_offline n now after else member x s.notified)
unfolding sweep_node
step_member now after n s x =
    ground (arith, member-add n.id x s.notified, member-discard n.id x s.notified)

step_seen :
    (now after : ℕ) (n : Node) (s : Sweep) (x : ℕ)
    → member x (sweep_node now after n s).seen ≡ (n.id == x || member x s.seen)
unfolding sweep_node
step_seen now after n s x = ground (arith, member-add n.id x s.seen)

loop_seen :
    (now after : ℕ) (ns : List Node) (s : Sweep) (x : ℕ)
    → member x (sweep_nodes now after ns s).seen ≡ (listed x ns || member x s.seen)
unfolding sweep_nodes
loop_seen now after [] s x = refl
loop_seen now after (n ∷ ns) s x =
    ground (arith, loop_seen now after ns (sweep_node now after n s) x, step_seen now after n s x)

loop_member :
    (now after : ℕ) (ns : List Node) (s : Sweep) (x : ℕ)
    → Distinct ns
    → member x (sweep_nodes now after ns s).notified
      ≡ (if listed x ns then offline_id now after x ns else member x s.notified)
unfolding sweep_nodes
loop_member now after [] s x d = refl
loop_member now after (n ∷ ns) s x d = ground (
  arith,
  loop_member now after ns (sweep_node now after n s) x d.1,
  step_member now after n s x,
  d.0,
)

-- The nodes that go offline, and those that come back, against a state set.
abbrev pub goes_down : ℕ → ℕ → IdSet → Node → Bool
goes_down now after notified n = is_offline n now after && not (member n.id notified)

abbrev pub comes_back : ℕ → ℕ → IdSet → Node → Bool
comes_back now after notified n = not (is_offline n now after) && member n.id notified

-- The tests of the nodes that follow do not see a change at another id.
others_same :
    (now after : ℕ) (n : Node) (s : Sweep) (ns : List Node)
    → listed n.id ns ≡ false
    → All (λ m. member m.id (sweep_node now after n s).notified ≡ member m.id s.notified) ns
others_same now after n s [] h = tt
others_same now after n s (m ∷ ns) h = (
  ground (arith, h, step_member now after n s m.id),
  others_same now after n s ns (ground (arith, h)),
)

down_same :
    (now after : ℕ) (n : Node) (s : Sweep) (ns : List Node)
    → listed n.id ns ≡ false
    → filter_by (goes_down now after (sweep_node now after n s).notified) ns
      ≡ filter_by (goes_down now after s.notified) ns
down_same now after n s ns h = filter_cong _ _ ns (
    All-map ns (λ m e. ap (λ b. is_offline m now after && not b) e)
      (others_same now after n s ns h))

back_same :
    (now after : ℕ) (n : Node) (s : Sweep) (ns : List Node)
    → listed n.id ns ≡ false
    → filter_by (comes_back now after (sweep_node now after n s).notified) ns
      ≡ filter_by (comes_back now after s.notified) ns
back_same now after n s ns h = filter_cong _ _ ns (
    All-map ns (λ m e. ap (λ b. not (is_offline m now after) && b) e)
      (others_same now after n s ns h))

step_lists :
    (now after : ℕ) (n : Node) (s : Sweep)
    → ((sweep_node now after n s).newly_offline
        ≡ s.newly_offline ++ elim (goes_down now after s.notified n) [ true ↦ n ∷ [] | false ↦ [] ])
      × ((sweep_node now after n s).recovered
          ≡ s.recovered ++ elim (comes_back now after s.notified n) [ true ↦ n ∷ [] | false ↦ [] ])
unfolding sweep_node
step_lists now after n s = ground (arith, append-nil s.newly_offline, append-nil s.recovered)

loop_lists :
    (now after : ℕ) (ns : List Node) (s : Sweep)
    → Distinct ns
    → ((sweep_nodes now after ns s).newly_offline
        ≡ s.newly_offline ++ filter_by (goes_down now after s.notified) ns)
      × ((sweep_nodes now after ns s).recovered
          ≡ s.recovered ++ filter_by (comes_back now after s.notified) ns)
unfolding sweep_nodes
loop_lists now after [] s d = (sym (append-nil _), sym (append-nil _))
loop_lists now after (n ∷ ns) s d =
    let (down, back) = loop_lists now after ns (sweep_node now after n s) d.1 in
    let (down_step, back_step) = step_lists now after n s in
    (
      down
          ∙ rw (down_step, down_same now after n s ns d.0)
              (append_if s.newly_offline _ n (goes_down now after s.notified n)),
      back
          ∙ rw (back_step, back_same now after n s ns d.0)
              (append_if s.recovered _ n (comes_back now after s.notified n)),
    )

-- After a check of nodes with distinct ids the state set holds exactly the listed nodes that are offline; an id that is no
-- longer listed has left it.
pub detect_transitions-notified :
    (nodes : List Node) (notified : IdSet) (now after x : ℕ)
    → Distinct nodes
    → member x (detect_transitions nodes notified now after).0
      ≡ (listed x nodes && offline_id now after x nodes)
unfolding detect_transitions member
detect_transitions-notified nodes notified now after x d = ground (
  arith,
  member-intersection x (sweep_nodes now after nodes (begin_sweep notified)).notified
      (sweep_nodes now after nodes (begin_sweep notified)).seen,
  loop_member now after nodes (begin_sweep notified) x d,
  loop_seen now after nodes (begin_sweep notified) x,
)

-- A check of nodes with distinct ids reports, in list order, exactly the offline nodes that were not notified before and the
-- online nodes that were.
pub detect_transitions-reports :
    (nodes : List Node) (notified : IdSet) (now after : ℕ)
    → Distinct nodes
    → ((detect_transitions nodes notified now after).1
        ≡ filter_by (goes_down now after notified) nodes)
      × ((detect_transitions nodes notified now after).2
          ≡ filter_by (comes_back now after notified) nodes)
unfolding detect_transitions
detect_transitions-reports nodes notified now after d =
    loop_lists now after nodes (begin_sweep notified) d

-- Each listed node is found under its own id.
each_found :
    (now after : ℕ) (ns : List Node)
    → Distinct ns
    → All
        (λ n. (listed n.id ns ≡ true) × (offline_id now after n.id ns ≡ is_offline n now after))
        ns
each_found now after [] d = tt
each_found now after (n ∷ ns) d =
    ((ground arith, ground arith), later ns d.0 (each_found now after ns d.1))
  where
    later :
        (ms : List Node)
        → listed n.id ms ≡ false
        → All
            (λ m. (listed m.id ns ≡ true) × (offline_id now after m.id ns ≡ is_offline m now after))
            ms
        → All
            (λ m.
              (listed m.id (n ∷ ns) ≡ true)
              × (offline_id now after m.id (n ∷ ns) ≡ is_offline m now after))
            ms
    later [] h a = tt
    later (m ∷ ms) h a = ((ground arith, ground arith), later ms (ground (arith, h)) a.1)

-- One notification per outage: for nodes with distinct ids, a second check of the unchanged nodes at
-- the same moment reports nothing.
pub detect_transitions-idempotent :
    (nodes : List Node) (notified : IdSet) (now after : ℕ)
    → Distinct nodes
    → let again =
        detect_transitions nodes (detect_transitions nodes notified now after).0 now after in
      (again.1 ≡ []) × (again.2 ≡ [])
detect_transitions-idempotent nodes notified now after d =
    let first = (detect_transitions nodes notified now after).0 in
    let (down, back) = detect_transitions-reports nodes first now after d in
    let known = λ (m : Node). detect_transitions-notified nodes notified now after m.id d in
    (
      down
          ∙ filter_none _ nodes (
              All-map nodes (λ m e. ground (arith, e.0, e.1, known m))
                (each_found now after nodes d)),
      back
          ∙ filter_none _ nodes (
              All-map nodes (λ m e. ground (arith, e.0, e.1, known m))
                (each_found now after nodes d)),
    )
