-- ===== src/Helper/UniqueFd.antt =====
-- srclib/libhelper/include/libhelper/management.hpp: `BasicUniqueFD` and `Closer`, over the
-- descriptors that the process has open. `syncOnClose` is left out, since it changes none of them.
pub mod Laws
pub mod Owned
use pmt_renovated.Base.{
  ℕ, zero, suc, ◌+◌, ◌-◌, Bool, true, false, Option, none, some, List, [], ◌∷◌, ◌++◌, Text, ◌==◌,
  if◌then◌else◌,
}

-- The object; `fd_` is `none` where it is negative.
pub record UniqueFd : Type 0 where
  pub fd : Option ℕ
  pub flags : ℕ
  pub mode : Option ℕ
  pub path : Text

-- `::open` of a path with flags and a mode, while these descriptors are open: the new one, or a failure.
abbrev pub Opens : Type 0
Opens = List ℕ → Text → ℕ → Option ℕ → Option ℕ

-- `::close`: the number is free again. One that is not open is refused by the kernel.
unfoldable pub close_number : ℕ → List ℕ → List ℕ
close_number n [] = []
close_number n (m ∷ ms) = let rest = close_number n ms in if m == n then ms else m ∷ rest

-- `Closer::close`: negative numbers are left alone.
unfoldable pub close_fd : Option ℕ → List ℕ → List ℕ
unfolding close_number
close_fd none opened = opened
close_fd (some n) opened = close_number n opened

-- What is open after a call of `::open` that gave this.
unfoldable pub with_opened : Option ℕ → List ℕ → List ℕ
with_opened none opened = opened
with_opened (some n) opened = n ∷ opened

-- An operation on one object, and what is open behind it.
abbrev pub Change : Type 0
Change = UniqueFd × List ℕ

unfoldable pub call_open : Opens → Text → ℕ → Option ℕ → UniqueFd → List ℕ → Change
unfolding with_opened
call_open opens path flags mode o opened =
    let n = opens opened path flags mode in (record o { fd = n }, with_opened n opened)

-- `fd_ >= 0`
abbrev pub is_open : Option ℕ → Bool
is_open none = false
is_open (some n) = true

-- The default constructor.
unfoldable pub unopened : UniqueFd
unopened = record { fd = none; flags = 0; mode = none; path = [] }

-- The constructors that open a file.
unfoldable pub construct : Opens → Text → ℕ → Option ℕ → List ℕ → Change
unfolding call_open
construct opens path flags mode opened =
    call_open opens path flags mode (record { fd = none; flags = flags; mode = mode; path = path })
      opened

-- The mode that `open` and `reOpen` pass on.
abbrev pub mode_for : Bool → UniqueFd → Option ℕ
mode_for with_mode o = if with_mode then o.mode else none

-- `open(withMode)`
unfoldable pub open_again : Opens → Bool → UniqueFd → List ℕ → Change
unfolding call_open
open_again opens with_mode o opened =
    if is_open o.fd
    then (o, opened)
    else call_open opens o.path o.flags (mode_for with_mode o) o opened

-- `open(path, flags)` and `open(path, flags, mode)`; the first one leaves the mode as it is.
unfoldable pub open_path : Opens → Text → ℕ → Option ℕ → UniqueFd → List ℕ → Change
unfolding call_open
open_path opens path flags mode o opened =
    let kept : Option ℕ = elim mode [ none ↦ o.mode | some m ↦ some m ] in
    if is_open o.fd
    then (o, opened)
    else call_open opens path flags mode (record o { path = path; flags = flags; mode = kept })
        opened

-- `close`
unfoldable pub close : UniqueFd → List ℕ → Change
unfolding close_fd
close o opened = (record o { fd = none }, close_fd o.fd opened)

-- `reOpen`
unfoldable pub re_open : Opens → Bool → UniqueFd → List ℕ → Change
unfolding close call_open
re_open opens with_mode o opened =
    let (closed, free) = close o opened in
    call_open opens o.path o.flags (mode_for with_mode o) closed free

-- The destructor: what is open behind it.
unfoldable pub destroy : UniqueFd → List ℕ → List ℕ
unfolding close_fd
destroy o opened = close_fd o.fd opened

-- The move constructor: the new object, and what is left in the old one.
unfoldable pub move_construct : UniqueFd → UniqueFd × UniqueFd
move_construct other = (other, record other { fd = none })

-- The move assignment to another object, whose path is left empty: both objects, and what is open.
unfoldable pub move_assign : UniqueFd → UniqueFd → List ℕ → UniqueFd × UniqueFd × List ℕ
unfolding close
move_assign self other opened =
    let (closed, free) = close self opened in
    (
      record { fd = other.fd; flags = other.flags; mode = other.mode; path = other.path },
      record other { fd = none; path = [] },
      free,
    )

-- Objects that live side by side, and what a program does to them, by their places.
pub data Command : Type 0 where
  construct_file : Text → ℕ → Option ℕ → Command
  open_same : ℕ → Bool → Command
  open_other : ℕ → Text → ℕ → Option ℕ → Command
  close_at : ℕ → Command
  re_open_at : ℕ → Bool → Command
  move_new : ℕ → Command
  move_to : ℕ → ℕ → Command

pub record Scene : Type 0 where
  pub objects : List UniqueFd
  pub opened : List ℕ

abbrev pub object_at : List UniqueFd → ℕ → Option UniqueFd
object_at [] i = none
object_at (o ∷ os) zero = some o
object_at (o ∷ os) (suc i) = object_at os i

abbrev pub put_at : List UniqueFd → ℕ → UniqueFd → List UniqueFd
put_at [] i o = []
put_at (x ∷ os) zero o = o ∷ os
put_at (x ∷ os) (suc i) o = x ∷ put_at os i o

-- One operation on the object of a place; there is none at other places.
abbrev pub changed : ℕ → (UniqueFd → List ℕ → Change) → Scene → Option UniqueFd → Scene
changed i op s none = s
changed i op s (some o) =
    let (o', opened) = op o s.opened in record { objects = put_at s.objects i o'; opened = opened }

unfoldable pub on_object : ℕ → (UniqueFd → List ℕ → Change) → Scene → Scene
on_object i op s = changed i op s (object_at s.objects i)

-- A move construction from the object of a place; the new object stands in front.
abbrev pub moved_new : ℕ → Scene → Option UniqueFd → Scene
moved_new i s none = s
moved_new i s (some o) =
    let (new, old) = move_construct o in record s { objects = new ∷ put_at s.objects i old }

-- A move assignment from the object of the second place to that of the first one. An assignment to
-- itself does nothing.
abbrev pub moved_to : ℕ → ℕ → Scene → Option UniqueFd → Option UniqueFd → Scene
moved_to i j s none other = s
moved_to i j s (some self) none = s
moved_to i j s (some self) (some other) =
    let (self', other', opened) = move_assign self other s.opened in
    if i == j
    then s
    else record { objects = put_at (put_at s.objects i self') j other'; opened = opened }

unfoldable pub exec : Opens → Command → Scene → Scene
unfolding on_object construct open_again open_path close re_open move_construct move_assign
exec opens (construct_file path flags mode) s =
    let (o, opened) = construct opens path flags mode s.opened in
    record { objects = o ∷ s.objects; opened = opened }
exec opens (open_same i with_mode) s = on_object i (open_again opens with_mode) s
exec opens (open_other i path flags mode) s = on_object i (open_path opens path flags mode) s
exec opens (close_at i) s = on_object i close s
exec opens (re_open_at i with_mode) s = on_object i (re_open opens with_mode) s
exec opens (move_new i) s = moved_new i s (object_at s.objects i)
exec opens (move_to i j) s = moved_to i j s (object_at s.objects i) (object_at s.objects j)

unfoldable pub exec_all : Opens → List Command → Scene → Scene
unfolding exec
exec_all opens [] s = s
exec_all opens (c ∷ cs) s = exec_all opens cs (exec opens c s)

-- The end of the scope: every object is destroyed.
unfoldable pub destroy_all : List UniqueFd → List ℕ → List ℕ
unfolding destroy
destroy_all [] opened = opened
destroy_all (o ∷ os) opened = destroy_all os (destroy o opened)
