-- ===== src/Plugins/Detect/Holds.antt =====
-- The bytes of the magic numbers that the type plugin names are there (src/plugins/TypePlugin.cpp).
use pmt_renovated.Base.{
  ℕ, ◌+◌, ◌-◌, ◌++◌, ap, if-cases, Option-cases, ==_iff, if◌then◌else◌, ◌^◌, ◌==◌, ◌≤◌, ◌<◌, ◌≡◌,
  refl, ◌∙◌, sym, subst, inl, inr, Bool, true, false, Option, none, some, List, [], ◌∷◌, Text, ltb,
  arith, length, if_true,
}
use pmt_renovated.Helper.Error.{done}
use pmt_renovated.Helper.Error.Laws.{done_injective}
use pmt_renovated.PartitionMap.Magic.{has_magic, get_magic_length, scan, spelled, zeros}
use pmt_renovated.PartitionMap.Magic.Laws.{Occurs, here, there, has_magic-Occurs}
use pmt_renovated.PartitionMap.Partition.{Gpt, Partition}
use pmt_renovated.PartitionMap.Table.{Disks}
use pmt_renovated.PartitionMap.Select.{TableType}
use pmt_renovated.Plugins.Work.{Flags, find}
use pmt_renovated.Plugins.Detect.{MagicMap, MagicMaps, Options, Reads, run}
use pmt_renovated.Plugins.Detect.Laws.{
  IsPath, FirstHit-hit, Identified, AllIdentified, nothing, next,
}
use pmt_renovated.Plugins.Detect.Run.{IsSorted, asked_for, run_identifies}

-- A search that says yes has found the bytes in the buffer.
scan-Occurs :
    (magic len bound i : ℕ) (bytes : List ℕ)
    → scan magic len bound i bytes ≡ done true
    → Occurs magic len bytes
unfolding scan
scan-Occurs magic len bound i [] e = elim (if-cases (ltb bound i) _ _ e) [
  | inl (past, ended) ↦ absurd cc
  | inr (before, read) ↦ absurd cc
]
scan-Occurs magic len bound i (b ∷ bytes) e = elim (if-cases (ltb bound i) _ _ e) [
  | inl (past, ended) ↦ absurd cc
  | inr (before, e1) ↦ elim (Option-cases (spelled len (b ∷ bytes))) [
    | inl short ↦ absurd (cc (rw short at e1))
    | inr (v, read) ↦ elim (if-cases (v == magic) _ _ (rw read at e1)) [
      | inl (hit, said) ↦ here (read ∙ ap some ((==_iff v magic).0 hit))
      | inr (other, rest) ↦ there (scan-Occurs magic len bound (i + 1) bytes rest)
    ]
  ]
]

-- An answer of yes comes from a file that was opened and read, and from a number that is not 0, whose bytes
-- stand in the buffer, behind whose first bytes are zeros.
has_magic-true :
    (magic buf : ℕ) (opened : Bool) (read : Option (List ℕ))
    → has_magic magic buf opened read ≡ done true
    → (bytes : List ℕ) × (read ≡ some bytes)
      × (opened ≡ true)
      × (0 < get_magic_length magic)
      × Occurs magic (get_magic_length magic) (bytes ++ zeros (buf - length bytes))
unfolding has_magic
has_magic-true magic buf opened none e = cc
has_magic-true magic buf false (some bytes) e = cc
has_magic-true magic buf true (some bytes) e = elim (if-cases (ltb buf 1) _ _ e) [
  | inl (small, said) ↦ absurd cc
  | inr (room, e1) ↦ elim (if-cases (get_magic_length magic == 0) _ _ e1) [
    | inl (empty, said) ↦ absurd cc
    | inr (not_empty, e2) ↦ (
      bytes,
      refl,
      refl,
      grind arith,
      scan-Occurs magic _ _ 0 (bytes ++ zeros (buf - length bytes)) e2,
    )
  ]
]

-- A `read` gives at most as many bytes as were asked for.
abbrev pub IsBounded : Reads → Type 0
IsBounded r =
    (path : Text) (n : ℕ) (bytes : List ℕ) → r.first_bytes path n ≡ some bytes → length bytes ≤ n

module _ {G : Gpt} {D : Disks G} (f : Flags G D) (r : Reads) (buf : ℕ) where
  -- The bytes of the magic number stand in the buffer, which has what was read from the file of the content
  -- and zeros behind it; and in what was read, if that is as long as the number.
  pub record Holds (content : Text) (e : ℕ × Text) : Type 0 where
    pub partition : Option (Partition G)
    pub t_type : Option TableType
    pub searched : find f content ≡ some (done (partition, t_type))
    pub path : Text
    pub made : IsPath f r content partition path
    pub opened : r.opens path ≡ true
    pub bytes : List ℕ
    pub read : r.first_bytes path buf ≡ some bytes
    pub in_buffer : Occurs e.0 (get_magic_length e.0) (bytes ++ zeros (buf - length bytes))
    pub in_file : get_magic_length e.0 ≤ length bytes → Occurs e.0 (get_magic_length e.0) bytes

  pub data AllHold : List Text → List (ℕ × Text) → Type 0 where
    nothing_held : AllHold [] []
    next_held :
        {content : Text} {contents : List Text} {e : ℕ × Text} {es : List (ℕ × Text)}
        → Holds content e
        → AllHold contents es
        → AllHold (content ∷ contents) (e ∷ es)

  Identified-Holds :
      (magics : MagicMap) (content : Text) (e : ℕ × Text)
      → IsBounded r
      → buf < 2 ^ 63
      → Identified f r buf magics content e
      → Holds content e
  Identified-Holds magics content e bounded small i =
      let whole : (if ltb buf (2 ^ 63) then buf else 0) ≡ buf =
        if_true {b = ltb buf (2 ^ 63)} _ _ (ground arith) in
      let said : has_magic e.0 buf (r.opens i.path) (r.first_bytes i.path buf) ≡ done true =
        subst (λ n. has_magic e.0 n (r.opens i.path) (r.first_bytes i.path n) ≡ done true) whole
          (FirstHit-hit _ e magics i.first) in
      let (bytes, read, opened, pos, in_buffer) = has_magic-true e.0 buf _ _ said in
      record {
        partition = i.partition;
        t_type = i.t_type;
        searched = i.searched;
        path = i.path;
        made = i.made;
        opened = opened;
        bytes = bytes;
        read = read;
        in_buffer = in_buffer;
        in_file = λ enough.
            let (answer, ran, sound) =
              has_magic-Occurs e.0 buf bytes pos enough (bounded i.path buf bytes read) small in
            sound.0 (
              done_injective (
                sym ran
                ∙ subst (λ b. has_magic e.0 buf b (some bytes) ≡ done true) opened
                    (subst (λ x. has_magic e.0 buf (r.opens i.path) x ≡ done true) read said)));
      }

  AllIdentified-AllHold :
      (magics : MagicMap) (contents : List Text) (es : List (ℕ × Text))
      → IsBounded r
      → buf < 2 ^ 63
      → AllIdentified f r buf magics contents es
      → AllHold contents es
  AllIdentified-AllHold magics contents es bounded small nothing = nothing_held
  AllIdentified-AllHold magics (content ∷ contents) (e ∷ es) bounded small (next i all) =
      next_held (Identified-Holds magics content e bounded small i)
        (AllIdentified-AllHold magics contents es bounded small all)

-- Where the keys of the maps ascend, a read gives at most what was asked for, and the buffer is smaller
-- than 2^63 bytes: when the type plugin returns true, then for each content the bytes of the magic number
-- that it names stand in the buffer with what was read from the file of that name, or else from the
-- partition, and with zeros behind it; and in what was read, if that has at least as many bytes as the
-- number.
pub run-AllHold :
    {G : Gpt} {D : Disks G} (f : Flags G D) (r : Reads) (o : Options) (m left : MagicMaps)
    (es : List (ℕ × Text))
    → IsSorted m
    → IsBounded r
    → o.buffer_size < 2 ^ 63
    → run f r o m ≡ some (done (es, left))
    → AllHold f r o.buffer_size o.contents es
run-AllHold f r o m left es sorted bounded small ran =
    AllIdentified-AllHold f r o.buffer_size (asked_for o m) o.contents es bounded small
      ((run_identifies f r o m left es sorted).0 ran).0
