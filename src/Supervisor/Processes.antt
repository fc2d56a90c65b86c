-- ===== src/Supervisor/Processes.antt =====
-- No process is lost: every child that was started is in the map or was shut down, once.
use stdiod.Base.{some_inj}
use stdiod.Base.{
  ℕ, ◌+◌, String, ◌≡◌, refl, sym, ap, subst, ◌∙◌, Bool, Option, none, some, List, [], ◌∷◌, ◌++◌,
  arith, ◌==◌, eq_iff, inl, inr, Bool-cases, Option-cases, if◌then◌else◌,
}
use stdiod.Base.Assoc.{lookup, insert, remove, values, Distinct}
use stdiod.Protocol.{DesiredServer, TunnelFrame}
use stdiod.Proc.{ChildServer}
use stdiod.Supervisor.{Host, Supervisor, send_frame, try_spawn, stop_child, publish_state}
use stdiod.Supervisor.Drain.{put_child, drain_incoming}
use stdiod.Supervisor.Touch.{success, failure, try_spawn-Spawned, try_spawn-IsAside, IsSameLaunch}
use stdiod.Supervisor.Steps.{
  Step, stops, starts, publishes, sends, touches, stores, Steps, done, more, IsKeyed, Steps-IsKeyed,
}
use stdiod.Supervisor.Steps.Frames.{IsOrder, drain_incoming-Steps}

-- A process is known by its pid and the spec from which it was started.
abbrev pub Selector : Type 0
Selector = Option ℕ → DesiredServer → Bool

abbrev one : Selector → ChildServer → ℕ
one p c = if p c.pid c.launched then 1 else 0

-- How many of the children's processes are selected.
unfoldable pub tally : Selector → List ChildServer → ℕ
tally p [] = 0
tally p (c ∷ cs) = one p c + tally p cs

-- As many processes of every kind were started as are running or were stopped.
pub record IsAccounted (sup : Supervisor) : Type 0 where
  pub balance :
      (p : Selector) → tally p sup.spawned ≡ tally p (values sup.children) + tally p sup.stopped

one-IsSameLaunch : (p : Selector) (c c' : ChildServer) → IsSameLaunch c c' → one p c' ≡ one p c
one-IsSameLaunch p c c' s = rw (s.pid_kept, s.launched_kept)

tally-insert :
    (p : Selector) (k : String) (c : ChildServer) (m : List (String × ChildServer))
    → lookup k m ≡ none
    → tally p (values (insert k c m)) ≡ one p c + tally p (values m)
unfolding tally values insert lookup
tally-insert p k c [] e = refl
tally-insert p k c ((j, d) ∷ m) e = elim (Bool-cases (j == k)) [
  | inl same ↦ absurd (ground (arith))
  | inr other ↦
      rw other
        (let e' : lookup k m ≡ none = rw other at e in omega (arith, tally-insert p k c m e'))
]

tally-put :
    (p : Selector) (k : String) (c c' : ChildServer) (m : List (String × ChildServer))
    → IsSameLaunch c c'
    → lookup k m ≡ some c
    → tally p (values (insert k c' m)) ≡ tally p (values m)
unfolding tally values insert lookup
tally-put p k c c' [] s e = cc
tally-put p k c c' ((j, d) ∷ m) s e = elim (Bool-cases (j == k)) [
  | inl same ↦ rw same (
      ap (λ n. n + tally p (values m))
        (one-IsSameLaunch p c c' s ∙ sym (ap (one p) (some_inj (rw same at e)))))
  | inr other ↦
      rw other
        (let e' : lookup k m ≡ some c = rw other at e in omega (arith, tally-put p k c c' m s e'))
]

remove_absent : (k : String) (m : List (String × ChildServer)) → lookup k m ≡ none → remove k m ≡ m
unfolding lookup remove
remove_absent k [] e = refl
remove_absent k ((j, d) ∷ m) e = elim (Bool-cases (j == k)) [
  | inl same ↦ absurd (ground (arith))
  | inr other ↦ rw other (let e' : lookup k m ≡ none = rw other at e in rw (remove_absent k m e'))
]

tally-remove :
    (p : Selector) (k : String) (c : ChildServer) (m : List (String × ChildServer))
    → Distinct m
    → lookup k m ≡ some c
    → tally p (values m) ≡ one p c + tally p (values (remove k m))
unfolding tally values lookup remove
tally-remove p k c [] d e = cc
tally-remove p k c ((j, x) ∷ m) d e = elim (Bool-cases (j == k)) [
  | inl same ↦ rw same (
      let q : x ≡ c = some_inj (rw same at e) in
      let r : remove k m ≡ m =
        remove_absent k m (subst (λ i. lookup i m ≡ none) ((eq_iff j k).0 same) d.0) in
      rw r (ap (λ y. one p y + tally p (values m)) q))
  | inr other ↦
      rw other
        (let e' : lookup k m ≡ some c = rw other at e in omega (arith, tally-remove p k c m d.1 e'))
]

tally-append :
    (p : Selector) (cs ds : List ChildServer) → tally p (cs ++ ds) ≡ tally p cs + tally p ds
unfolding tally
tally-append p [] ds = omega arith
tally-append p (c ∷ cs) ds = omega (arith, tally-append p cs ds)

stop_child-IsAccounted :
    (id : String) (sup : Supervisor)
    → IsKeyed sup
    → IsAccounted sup
    → IsAccounted (stop_child id sup)
unfolding stop_child tally
stop_child-IsAccounted id sup v a = elim (Option-cases (lookup id sup.children)) [
  | inl e ↦ rw (e, stop_child) a
  | inr (c, e) ↦
      rw (e, stop_child)
        (record {
          balance = λ p. omega (arith, a.balance p, tally-remove p id c sup.children v.distinct e);
        })
]

try_spawn-IsAccounted :
    (host : Host) (raw : DesiredServer) (sup : Supervisor)
    → lookup raw.server_id sup.children ≡ none
    → IsAccounted sup
    → IsAccounted (try_spawn host raw sup)
unfolding tally
try_spawn-IsAccounted host raw sup free a = record {
  balance = λ p. elim (try_spawn-Spawned host raw sup) [
    | success c f e s ↦
        rw (e, s, (try_spawn-IsAside host raw sup).same_stopped)
          (omega (arith, a.balance p, tally-insert p raw.server_id c sup.children free))
    | failure m x e s ↦ rw (e, s, (try_spawn-IsAside host raw sup).same_stopped) (a.balance p)
  ];
}

module _ (host : Host) where
  Step-IsAccounted : {x y : Supervisor} → Step host x y → IsKeyed x → IsAccounted x → IsAccounted y
  unfolding publish_state send_frame put_child
  Step-IsAccounted (stops id sup) v a = stop_child-IsAccounted id sup v a
  Step-IsAccounted (starts raw sup free) v a = try_spawn-IsAccounted host raw sup free a
  Step-IsAccounted (publishes sup) v a = record { balance = a.balance }
  Step-IsAccounted (sends f sup) v a = record { balance = a.balance }
  Step-IsAccounted (touches k c c' sup found s) v a = record {
    balance = λ p. omega (arith, a.balance p, tally-put p k c c' sup.children s found);
  }
  Step-IsAccounted (stores store disk sup) v a = record { balance = a.balance }

  Steps-IsAccounted :
      {x y : Supervisor} → Steps host x y → IsKeyed x → IsAccounted x → IsAccounted y
  Steps-IsAccounted done v a = a
  Steps-IsAccounted (more r s) v a =
      Step-IsAccounted s (Steps-IsKeyed host r v) (Steps-IsAccounted r v a)

  -- If each child stands once under the id of its raw spec, and an iteration over the wanted
  -- servers meets each one once, then any frames of the backend keep the balance: for every
  -- choice of pid and launched spec, as many such processes were started as are in the map or
  -- were shut down. So no process is orphaned and none is counted in both places.
  pub drain_incoming-IsAccounted :
      (frames : List (ℕ × TunnelFrame)) (last_pong : ℕ) (sup : Supervisor)
      → IsOrder host.order
      → IsKeyed sup
      → IsAccounted sup
      → IsAccounted (drain_incoming host frames last_pong sup).0
  drain_incoming-IsAccounted frames last_pong sup o v a =
      Steps-IsAccounted (drain_incoming-Steps host frames last_pong sup o v) v a
