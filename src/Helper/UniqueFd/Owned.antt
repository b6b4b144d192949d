-- ===== src/Helper/UniqueFd/Owned.antt =====
-- What a program does with `BasicUniqueFD` objects leaves each open descriptor with exactly one owner
-- (management.hpp).
use pmt_renovated.Base.{
  ℕ, zero, suc, ◌+◌, ◌≤◌, ◌≡◌, ◌≢◌, refl, ap, ◌∙◌, sym, subst, inl, inr, Option, none, some, List,
  [], ◌∷◌, Text, ◌==◌, arith, Bool-cases, if_true, if_false,
}
use pmt_renovated.Helper.UniqueFd.{
  UniqueFd, Opens, Scene, Command, close_fd, construct, open_again, open_path, close, re_open,
  destroy, move_construct, move_assign, object_at, put_at, moved_new, moved_to, exec, exec_all,
  destroy_all, construct_file, open_same, open_other, close_at, re_open_at, move_new, move_to,
}
use pmt_renovated.Helper.UniqueFd.Laws.{
  count, total, IsOwned, GivesFresh, close_fd-count, held-le-total, put_at-total, call_open-fair,
  on_object-IsOwned, open_again-IsFair, open_path-IsFair, close-IsFair, re_open-IsFair,
}

construct-IsOwned :
    (opens : Opens) (path : Text) (flags : ℕ) (mode : Option ℕ) (s : Scene)
    → GivesFresh opens
    → IsOwned s
    → IsOwned (exec opens (construct_file path flags mode) s)
unfolding exec construct
construct-IsOwned opens path flags mode s fresh owned n =
    let start : UniqueFd = record { fd = none; flags = flags; mode = mode; path = path } in
    let new = call_open-fair opens path flags mode start s.opened n fresh (owned n).1 in
    let before = owned n in (omega arith, new.1)

moved_new-IsOwned :
    (i : ℕ) (s : Scene) (r : Option UniqueFd)
    → object_at s.objects i ≡ r
    → IsOwned s
    → IsOwned (moved_new i s r)
unfolding move_construct
moved_new-IsOwned i s none there owned n = owned n
moved_new-IsOwned i s (some o) there owned n =
    let put = put_at-total n i s.objects o (record o { fd = none }) there in
    let before = owned n in (omega arith, before.1)

-- The object of another place is still there.
object_at-put_at :
    (i j : ℕ) (os : List UniqueFd) (o : UniqueFd)
    → i ≢ j
    → object_at (put_at os i o) j ≡ object_at os j
object_at-put_at i j [] o e = refl
object_at-put_at zero zero (x ∷ os) o e = absurd (e refl)
object_at-put_at zero (suc j) (x ∷ os) o e = refl
object_at-put_at (suc i) zero (x ∷ os) o e = refl
object_at-put_at (suc i) (suc j) (x ∷ os) o e = object_at-put_at i j os o (λ same. e (ap suc same))

moved_to-IsOwned :
    (i j : ℕ) (s : Scene) (r q : Option UniqueFd)
    → object_at s.objects i ≡ r
    → object_at s.objects j ≡ q
    → IsOwned s
    → IsOwned (moved_to i j s r q)
unfolding move_assign close
moved_to-IsOwned i j s none q here there owned = owned
moved_to-IsOwned i j s (some self) none here there owned = owned
moved_to-IsOwned i j s (some self) (some other) here there owned =
    let after : Scene = record {
      objects =
          put_at (put_at s.objects i (move_assign self other s.opened).0) j
            (move_assign self other s.opened).1;
      opened = (move_assign self other s.opened).2;
    } in
    elim (Bool-cases (i == j)) [
      | inl same ↦ subst IsOwned (sym (if_true s after same)) owned
      | inr apart ↦ subst IsOwned (sym (if_false s after apart)) (λ n.
          let got : UniqueFd = record {
            fd = other.fd;
            flags = other.flags;
            mode = other.mode;
            path = other.path;
          } in
          let one = put_at-total n i s.objects self got here in
          let two =
            put_at-total n j (put_at s.objects i got) other (record other { fd = none; path = [] })
              (object_at-put_at i j s.objects got (grind arith) ∙ there) in
          let gone = close_fd-count n self.fd s.opened in
          let before = owned n in
          let part = held-le-total n i s.objects self here in
          let less = gone (omega arith) in (omega arith, omega arith))
    ]

exec-IsOwned :
    (opens : Opens) (c : Command) (s : Scene)
    → GivesFresh opens
    → IsOwned s
    → IsOwned (exec opens c s)
unfolding exec
exec-IsOwned opens (construct_file path flags mode) s fresh owned =
    construct-IsOwned opens path flags mode s fresh owned
exec-IsOwned opens (open_same i with_mode) s fresh owned =
    on_object-IsOwned i (open_again opens with_mode) s (open_again-IsFair opens with_mode fresh)
      owned
exec-IsOwned opens (open_other i path flags mode) s fresh owned =
    on_object-IsOwned i (open_path opens path flags mode) s
      (open_path-IsFair opens path flags mode fresh) owned
exec-IsOwned opens (close_at i) s fresh owned = on_object-IsOwned i close s close-IsFair owned
exec-IsOwned opens (re_open_at i with_mode) s fresh owned =
    on_object-IsOwned i (re_open opens with_mode) s (re_open-IsFair opens with_mode fresh) owned
exec-IsOwned opens (move_new i) s fresh owned =
    moved_new-IsOwned i s (object_at s.objects i) refl owned
exec-IsOwned opens (move_to i j) s fresh owned =
    moved_to-IsOwned i j s (object_at s.objects i) (object_at s.objects j) refl refl owned

exec_all-IsOwned :
    (opens : Opens) (cs : List Command) (s : Scene)
    → GivesFresh opens
    → IsOwned s
    → IsOwned (exec_all opens cs s)
unfolding exec_all
exec_all-IsOwned opens [] s fresh owned = owned
exec_all-IsOwned opens (c ∷ cs) s fresh owned =
    exec_all-IsOwned opens cs (exec opens c s) fresh (exec-IsOwned opens c s fresh owned)

-- The destructors close what the objects hold.
destroy_all-count :
    (n : ℕ) (os : List UniqueFd) (opened : List ℕ)
    → total n os ≤ count n opened
    → count n (destroy_all os opened) + total n os ≡ count n opened
unfolding destroy_all destroy
destroy_all-count n [] opened h = omega arith
destroy_all-count n (o ∷ os) opened h =
    let gone = close_fd-count n o.fd opened (omega arith) in
    let rest = destroy_all-count n os (close_fd o.fd opened) (omega arith) in omega arith

-- Nothing is leaked: from an empty scene and none of the descriptors open, where the kernel gives out
-- descriptors that are not open, whatever a program constructs, opens, closes, reopens and moves, after
-- the destruction of its objects no descriptor is open.
pub destroy_all-exec_all :
    (opens : Opens) (cs : List Command) (n : ℕ)
    → GivesFresh opens
    → let s = exec_all opens cs (record { objects = []; opened = [] }) in
      (count n (destroy_all s.objects s.opened) ≡ 0)
      × (count n s.opened ≡ total n s.objects)
      × (count n s.opened ≤ 1)
destroy_all-exec_all opens cs n fresh =
    let s = exec_all opens cs (record { objects = []; opened = [] }) in
    let owned =
      exec_all-IsOwned opens cs (record { objects = []; opened = [] }) fresh
        (λ m. (refl, omega arith)) n in
    let left = destroy_all-count n s.objects s.opened (omega arith) in
    (omega arith, owned.0, owned.1)
