-- ===== src/Helper/Silencer.antt =====
-- srclib/libhelper/include/libhelper/management.hpp: `Silencer`, over the buffers of the two streams and the
-- descriptors of the process.
pub mod Laws
pub mod Restore
use pmt_renovated.Base.{ℕ, Bool, true, false, ◌||◌, Option, none, some, ◌==◌, if◌then◌else◌}

-- The file that is behind each descriptor, by a number of the file.
abbrev pub Table : Type 0
Table = ℕ → Option ℕ

-- The buffers of `std::cout` and `std::cerr` (`none`: the null pointer), and the descriptors.
pub record Process : Type 0 where
  pub cout : Option ℕ
  pub cerr : Option ℕ
  pub table : Table

-- The descriptor that the kernel gives next (`none`: it refuses), the number of `/dev/null`, and the
-- buffer of `null_stream`.
pub record System : Type 0 where
  pub next : Table → Option ℕ
  pub null_file : ℕ
  pub null_buffer : ℕ

unfoldable pub set : Table → ℕ → Option ℕ → Table
set t n file m = if m == n then file else t m

-- A call that gives a new descriptor for a file, where the kernel has one: the result, and what is open.
unfoldable pub given : Table → ℕ → Option ℕ → Option ℕ × Table
unfolding set
given t file none = (none, t)
given t file (some n) = (some n, set t n (some file))

-- `::open` of `/dev/null`.
unfoldable pub open_null : System → Table → Option ℕ × Table
unfolding given
open_null k t = given t k.null_file (k.next t)

-- `::dup`, of what is behind the descriptor.
unfoldable pub dup_file : System → Option ℕ → Table → Option ℕ × Table
unfolding given
dup_file k none t = (none, t)
dup_file k (some file) t = given t file (k.next t)

abbrev pub dup : System → ℕ → Table → Option ℕ × Table
dup k n t = dup_file k (t n) t

-- `::dup2`, which fails and changes nothing where the first descriptor is not open.
unfoldable pub put_file : Option ℕ → ℕ → Table → Table
unfolding set
put_file none new t = t
put_file (some file) new t = set t new (some file)

unfoldable pub dup2 : Option ℕ → ℕ → Table → Table
unfolding put_file
dup2 none new t = t
dup2 (some old) new t = put_file (t old) new t

unfoldable pub close : Option ℕ → Table → Table
unfolding set
close none t = t
close (some n) t = set t n none

-- The object; a descriptor is `none` where it is -1, and `null_stream` is that of the stream.
pub record Silencer : Type 0 where
  pub saved_cout : Option ℕ
  pub saved_cerr : Option ℕ
  pub null_stream : Option ℕ
  pub saved_stdout_fd : Option ℕ
  pub saved_stderr_fd : Option ℕ
  pub null_fd : Option ℕ

unfoldable pub idle : Silencer
idle = record {
  saved_cout = none;
  saved_cerr = none;
  null_stream = none;
  saved_stdout_fd = none;
  saved_stderr_fd = none;
  null_fd = none;
}

abbrev pub is_set : Option ℕ → Bool
is_set none = false
is_set (some n) = true

-- The end of `silence`, with the descriptor of `/dev/null`.
unfoldable pub silence_descriptors : System → Silencer → Process → Option ℕ → Silencer × Process
unfolding dup_file dup2
silence_descriptors k s p none = (record s { null_fd = none }, p)
silence_descriptors k s p (some n) =
    let (out, t) = dup k 1 p.table in
    let (err, t') = dup k 2 t in
    (
      record s { null_fd = some n; saved_stdout_fd = out; saved_stderr_fd = err },
      record p { table = dup2 (some n) 2 (dup2 (some n) 1 t') },
    )

unfoldable pub silence : System → Silencer → Process → Silencer × Process
unfolding open_null silence_descriptors
silence k s p =
    let (stream, t) = open_null k p.table in
    let (null, t') = open_null k t in
    let quiet : Silencer = record s {
      null_stream = stream;
      saved_cout = p.cout;
      saved_cerr = p.cerr;
    } in
    if is_set s.saved_cout || is_set s.null_fd
    then (s, p)
    else silence_descriptors k quiet
        (record { cout = some k.null_buffer; cerr = some k.null_buffer; table = t' }) null

unfoldable pub stop_streams : Silencer → Process → Silencer × Process
unfolding close
stop_streams s p =
    if is_set s.saved_cout
    then (
      record s { saved_cout = none; saved_cerr = none; null_stream = none },
      record { cout = s.saved_cout; cerr = s.saved_cerr; table = close s.null_stream p.table },
    )
    else (s, p)

unfoldable pub stop_descriptors : Silencer → Process → Silencer × Process
unfolding close dup2
stop_descriptors s p =
    let t = dup2 s.saved_stderr_fd 2 (dup2 s.saved_stdout_fd 1 p.table) in
    if is_set s.null_fd
    then (
      record s { saved_stdout_fd = none; saved_stderr_fd = none; null_fd = none },
      record p { table = close s.null_fd (close s.saved_stderr_fd (close s.saved_stdout_fd t)) },
    )
    else (s, p)

-- `stop`, which is also the destructor.
unfoldable pub stop : Silencer → Process → Silencer × Process
unfolding stop_streams stop_descriptors
stop s p = let (s', p') = stop_streams s p in stop_descriptors s' p'
