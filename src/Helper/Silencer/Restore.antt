-- ===== src/Helper/Silencer/Restore.antt =====
-- What `Silencer` restores (management.hpp).
use pmt_renovated.Base.{
  ℕ, ◌==◌, ◌≡◌, ◌≢◌, refl, ap, ◌∙◌, sym, inl, inr, false, Option, none, some, arith, Bool-cases,
  ==_iff,
}
use pmt_renovated.Helper.Silencer.{
  Table, Process, System, Silencer, set, given, open_null, dup_file, close, idle,
  silence_descriptors, silence, stop_streams, stop_descriptors, stop,
}
use pmt_renovated.Helper.Silencer.Laws.{
  GivesFree, set-same, apart_from_open, dup2_lem, put_back, other_kept, kept, free_before,
}

module _ (k : System) (t : Table) (a n out err f g b : ℕ) (e : Option ℕ) (one : t 1 ≡ some f)
    (two : t 2 ≡ some g) (free : GivesFree k) (given_a : k.next t ≡ some a)
    (given_n : k.next (set t a (some k.null_file)) ≡ some n)
    (given_out : k.next (set (set t a (some k.null_file)) n (some k.null_file)) ≡ some out)
    (given_err : k.next (set (set (set t a (some k.null_file)) n (some k.null_file)) out (some f))
      ≡ some err) where
  abbrev before : Process
  before = record { cout = some b; cerr = e; table = t }

  abbrev null : Option ℕ
  null = some k.null_file

  abbrev t1 : Table
  t1 = set t a null

  abbrev t2 : Table
  t2 = set t1 n null

  abbrev t3 : Table
  t3 = set t2 out (some f)

  abbrev t4 : Table
  t4 = set t3 err (some g)

  abbrev t5 : Table
  t5 = set (set t4 1 null) 2 null

  free_a : t a ≡ none
  free_a = free t a given_a

  free_n : t1 n ≡ none
  free_n = free t1 n given_n

  free_out : t2 out ≡ none
  free_out = free t2 out given_out

  free_err : t3 err ≡ none
  free_err = free t3 err given_err

  -- A descriptor that was open is open behind each of the calls.
  kept_2 : (x v : ℕ) → t x ≡ some v → t2 x ≡ some v
  kept_2 x v used = kept t1 x n v null (kept t x a v null used free_a) free_n

  kept_3 : (x v : ℕ) → t x ≡ some v → t3 x ≡ some v
  kept_3 x v used = kept t2 x out v (some f) (kept_2 x v used) free_out

  -- What the redirection reads.
  null_at_4 : t4 n ≡ null
  null_at_4 =
      kept t3 n err k.null_file (some g)
        (kept t2 n out k.null_file (some f) (set-same t1 n null) free_out) free_err

  out_at_4 : t4 out ≡ some f
  out_at_4 = kept t3 out err f (some g) (set-same t2 out (some f)) free_err

  not_1 : (x : ℕ) → t x ≡ none → x ≢ 1
  not_1 x = apart_from_open t 1 x f one

  not_2 : (x : ℕ) → t x ≡ none → x ≢ 2
  not_2 x = apart_from_open t 2 x g two

  was_free_n : t n ≡ none
  was_free_n = free_before t n a k.null_file free_n

  was_free_out : t out ≡ none
  was_free_out = free_before t out a k.null_file (free_before t1 out n k.null_file free_out)

  was_free_err : t err ≡ none
  was_free_err =
      free_before t err a k.null_file
        (free_before t1 err n k.null_file (free_before t2 err out f free_err))

  abbrev silencer : Silencer
  silencer = record {
    saved_cout = some b;
    saved_cerr = e;
    null_stream = some a;
    saved_stdout_fd = some out;
    saved_stderr_fd = some err;
    null_fd = some n;
  }

  silence_lem :
      silence k idle before
      ≡ (silencer, record { cout = some k.null_buffer; cerr = some k.null_buffer; table = t5 })
  unfolding silence open_null given silence_descriptors dup_file idle
  silence_lem =
      let first = dup2_lem t4 n 1 k.null_file null_at_4 in
      let second =
        dup2_lem (set t4 1 null) n 2 k.null_file
          (other_kept t4 n 1 k.null_file null (not_1 n was_free_n) null_at_4) in
      rw (given_a, given_n, kept_2 1 f one, given_out, kept_3 2 g two, given_err, first, second)
        refl

  abbrev t6 : Table
  t6 = set t5 a none

  null_at_2 : t2 a ≡ null
  null_at_2 = kept t1 a n k.null_file null (set-same t a null) free_n

  null_at_3 : t3 a ≡ null
  null_at_3 = kept t2 a out k.null_file (some f) null_at_2 free_out

  -- A descriptor of a file is still open where the stream is closed.
  open_at_6 : (x v : ℕ) → t4 x ≡ some v → x ≢ 1 → x ≢ 2 → x ≢ a → t6 x ≡ some v
  open_at_6 x v used no_1 no_2 no_a =
      other_kept t5 x a v none no_a
        (other_kept (set t4 1 null) x 2 v null no_2 (other_kept t4 x 1 v null no_1 used))

  same_elsewhere :
      (m : ℕ)
      → (m == n) ≡ false
      → (m == err) ≡ false
      → (m == out) ≡ false
      → (m == 2) ≡ false
      → (m == 1) ≡ false
      → t6 m ≡ t m
  unfolding set
  same_elsewhere m no_n no_err no_out no_2 no_1 = elim (Bool-cases (m == a)) [
    | inl at_a ↦ rw at_a (sym (ap t ((==_iff m a).0 at_a) ∙ free_a))
    | inr not_a ↦ rw (not_a, no_n, no_err, no_out, no_2, no_1) refl
  ]

  stop_lem :
      stop silencer (record { cout = some k.null_buffer; cerr = some k.null_buffer; table = t5 })
      ≡ (
        idle,
        record {
          cout = some b;
          cerr = e;
          table =
              close
                (some n)
                (close (some err) (close (some out) (set (set t6 1 (some f)) 2 (some g))));
        },
      )
  unfolding stop stop_streams stop_descriptors idle close
  stop_lem =
      let used =
        open_at_6 out f out_at_4 (not_1 out was_free_out) (not_2 out was_free_out)
          (λ same. apart_from_open t2 a out k.null_file null_at_2 free_out same) in
      let used' =
        open_at_6 err g (set-same t3 err (some g)) (not_1 err was_free_err) (not_2 err was_free_err)
          (λ same. apart_from_open t3 a err k.null_file null_at_3 free_err same) in
      let first = dup2_lem t6 out 1 f used in
      let second =
        dup2_lem (set t6 1 (some f)) err 2 g
          (other_kept t6 err 1 g (some f) (not_1 err was_free_err) used') in
      rw (first, second) refl

  -- The destructor undoes the constructor: where the kernel gives the four descriptors that are asked
  -- for, which were not open, and the two standard descriptors and the buffer of `std::cout` are there,
  -- then while the object lives both buffers are the null one and both standard descriptors are on
  -- `/dev/null`; when it stops, both buffers and all descriptors of the process are what they were, and
  -- the object is as it was before.
  pub silence-stop :
      let (quiet, during) = silence k idle before in
      let (later, after) = stop quiet during in
      (during.cout ≡ some k.null_buffer)
      × (during.cerr ≡ some k.null_buffer)
      × (during.table 1 ≡ null)
      × (during.table 2 ≡ null)
      × (later ≡ idle)
      × (after.cout ≡ some b)
      × (after.cerr ≡ e)
      × ((m : ℕ) → after.table m ≡ t m)
  silence-stop =
      rw (silence_lem, stop_lem)
        (
          refl,
          refl,
          other_kept (set t4 1 null) 1 2 k.null_file null (omega arith) (set-same t4 1 null),
          set-same (set t4 1 null) 2 null,
          refl,
          refl,
          refl,
          λ m.
              put_back t t6 n out err m f g one two was_free_n was_free_out was_free_err
                (same_elsewhere m),
        )
