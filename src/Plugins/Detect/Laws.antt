-- ===== src/Plugins/Detect/Laws.antt =====
-- What the type plugin finds (src/plugins/TypePlugin.cpp).
use pmt_renovated.Base.{
  ℕ, ◌^◌, ◌≡◌, ◌≢◌, ◌⊎◌, arith, ltb, refl, ap, ◌∙◌, sym, subst, inl, inr, Bool, true, false, Option,
  none, some, List, [], ◌∷◌, Text, if_true, if_false, Bool-cases, if◌then◌else◌,
}
use pmt_renovated.Helper.Error.{Outcome, done, threw, escaped, exited, undefined, ◌>>=◌}
use pmt_renovated.Helper.Error.Laws.{done_injective}
use pmt_renovated.PartitionMap.Magic.{has_magic}
use pmt_renovated.PartitionMap.Partition.{Gpt, Partition, absolute_path}
use pmt_renovated.PartitionMap.Table.{Disks}
use pmt_renovated.PartitionMap.Select.{TableType}
use pmt_renovated.Plugins.Work.{Flags, find}
use pmt_renovated.Plugins.Work.Laws.{after-eq-done, some_injective}
use pmt_renovated.Plugins.Detect.{
  MagicMap, Reads, check_content, check, as_ssize, path_for, found_or_throw, first_magic,
  is_missing, identify, identify_all,
}

-- The first entry of a map whose magic number passes a test.
pub data FirstHit (test : ℕ → Outcome Bool) (e : ℕ × Text) : MagicMap → Type 0 where
  hit : {m : MagicMap} → test e.0 ≡ done true → FirstHit test e (e ∷ m)
  miss :
      {x : ℕ × Text} {m : MagicMap}
      → test x.0 ≡ done false
      → FirstHit test e m
      → FirstHit test e (x ∷ m)

pub bind-eq-done :
    {A B : Type 0} (o : Outcome A) (f : A → Outcome B) {b : B}
    → (o >>= f) ≡ done b
    → (a : A) × (o ≡ done a) × (f a ≡ done b)
bind-eq-done (done a) f e = (a, refl, e)
bind-eq-done (threw x) f e = cc
bind-eq-done escaped f e = cc
bind-eq-done (exited n) f e = cc
bind-eq-done undefined f e = cc

first_magic-FirstHit :
    (test : ℕ → Outcome Bool) (m : MagicMap) (e : ℕ × Text)
    → first_magic test m ≡ done (some e)
    → FirstHit test e m
unfolding first_magic
first_magic-FirstHit test [] e ran = cc
first_magic-FirstHit test (x ∷ m) e ran =
    let (b, answer, rest) =
      bind-eq-done (test x.0) (λ b. if b then done (some x) else first_magic test m) ran in
    elim (Bool-cases b) [
      | inl was_hit ↦
          let same : x ≡ e = some_injective (done_injective (sym (if_true _ _ was_hit) ∙ rest)) in
          subst (λ y. FirstHit test y (x ∷ m)) same (hit (answer ∙ ap done was_hit))
      | inr no_hit ↦
          miss (answer ∙ ap done no_hit)
            (first_magic-FirstHit test m e (sym (if_false _ _ no_hit) ∙ rest))
    ]

FirstHit-first_magic :
    (test : ℕ → Outcome Bool) (m : MagicMap) (e : ℕ × Text)
    → FirstHit test e m
    → first_magic test m ≡ done (some e)
unfolding first_magic
FirstHit-first_magic test [] e h = elim h [ ]
FirstHit-first_magic test (_ ∷ m) e (hit seen) = rw seen refl
FirstHit-first_magic test (x ∷ m) e (miss no_hit later) =
    rw no_hit (FirstHit-first_magic test m e later)

found_or_throw-found :
    (content : Text) (o : Option (ℕ × Text)) {e : ℕ × Text}
    → found_or_throw content o ≡ done e
    → o ≡ some e
unfolding found_or_throw
found_or_throw-found content none e = cc
found_or_throw-found content (some x) e = ap some (done_injective e)

found_or_throw_done : (content : Text) (e : ℕ × Text) → found_or_throw content (some e) ≡ done e
unfolding found_or_throw
found_or_throw_done content e = refl

pub FirstHit-hit :
    (test : ℕ → Outcome Bool) (e : ℕ × Text) (m : MagicMap)
    → FirstHit test e m
    → test e.0 ≡ done true
FirstHit-hit test e [] h = elim h [ ]
FirstHit-hit test e (_ ∷ m) (hit seen) = seen
FirstHit-hit test e (x ∷ m) (miss no_hit later) = FirstHit-hit test e m later

FirstHit-same :
    (test test' : ℕ → Outcome Bool) (e : ℕ × Text) (m : MagicMap)
    → ((magic : ℕ) → test magic ≡ test' magic)
    → FirstHit test e m
    → FirstHit test' e m
FirstHit-same test test' e [] same h = elim h [ ]
FirstHit-same test test' e (_ ∷ m) same (hit seen) = hit (sym (same e.0) ∙ seen)
FirstHit-same test test' e (x ∷ m) same (miss no_hit later) =
    miss (sym (same x.0) ∙ no_hit) (FirstHit-same test test' e m same later)

module _ {G : Gpt} (r : Reads) (content : Text) where
  -- A content is known: as a partition, by the type of a table, or as a file.
  abbrev pub IsKnown : Option (Partition G) → Option TableType → Type 0
  IsKnown p t_type = (p ≢ none) ⊎ ((t_type ≢ none) ⊎ (r.exists content ≡ true))

  is_missing-IsKnown :
      (p : Option (Partition G)) (t_type : Option TableType)
      → is_missing r content p t_type ≡ false
      → IsKnown p t_type
  unfolding is_missing
  is_missing-IsKnown (some p) t_type e = inl (λ same. cc same)
  is_missing-IsKnown none (some t) e = inr (inl (λ same. cc same))
  is_missing-IsKnown none none e = inr (inr (ground arith))

  IsKnown-is_missing :
      (p : Option (Partition G)) (t_type : Option TableType)
      → IsKnown p t_type
      → is_missing r content p t_type ≡ false
  unfolding is_missing
  IsKnown-is_missing (some p) t_type known = refl
  IsKnown-is_missing none (some t) known = refl
  IsKnown-is_missing none none (inl known) = absurd (known refl)
  IsKnown-is_missing none none (inr (inl known)) = absurd (known refl)
  IsKnown-is_missing none none (inr (inr there)) = rw there refl

module _ {G : Gpt} {D : Disks G} (f : Flags G D) (r : Reads) where
  -- The file of a content: the file of that name, or else the absolute path of the partition.
  abbrev pub IsPath : Text → Option (Partition G) → Text → Type 0
  IsPath content p path =
      ((r.exists content ≡ true) × (path ≡ content))
      ⊎ ((r.exists content ≡ false)
          × (q : Partition G) × (p ≡ some q)
          × (absolute_path f.files q ≡ done path))

  path_for-IsPath :
      (content : Text) (p : Option (Partition G)) (path : Text)
      → path_for f r content p ≡ done path
      → IsPath content p path
  unfolding path_for
  path_for-IsPath content none path e = elim (Bool-cases (r.exists content)) [
    | inl there ↦ inl (there, done_injective (sym e ∙ if_true _ _ there))
    | inr away ↦ absurd (cc (sym (if_false _ _ away) ∙ e))
  ]
  path_for-IsPath content (some q) path e = elim (Bool-cases (r.exists content)) [
    | inl there ↦ inl (there, done_injective (sym e ∙ if_true _ _ there))
    | inr away ↦ inr (away, q, refl, sym (if_false _ _ away) ∙ e)
  ]

  IsPath-path_for :
      (content : Text) (p : Option (Partition G)) (path : Text)
      → IsPath content p path
      → path_for f r content p ≡ done path
  unfolding path_for
  IsPath-path_for content p path (inl (there, same)) = if_true _ _ there ∙ ap done (sym same)
  IsPath-path_for content p path (inr (away, q, found, made)) = if_false _ _ away ∙ rw found made

module _ {G : Gpt} {D : Disks G} (f : Flags G D) (r : Reads) (buf : ℕ) (magics : MagicMap) where
  -- The size of the buffer as a signed number, where a negative one counts as 0.
  abbrev pub signed_size : ℕ
  signed_size = if ltb buf (2 ^ 63) then buf else 0

  -- What an entry has to do with a content: the content is known and has a file, and the entry is the
  -- first one of the map whose magic number is found in that file.
  pub record Identified (content : Text) (e : ℕ × Text) : Type 0 where
    pub partition : Option (Partition G)
    pub t_type : Option TableType
    pub searched : find f content ≡ some (done (partition, t_type))
    pub known : IsKnown r content partition t_type
    pub path : Text
    pub made : IsPath f r content partition path
    pub first :
        FirstHit
          (λ magic. has_magic magic signed_size (r.opens path) (r.first_bytes path signed_size))
          e
          magics

  pub data AllIdentified : List Text → List (ℕ × Text) → Type 0 where
    nothing : AllIdentified [] []
    next :
        {content : Text} {contents : List Text} {e : ℕ × Text} {es : List (ℕ × Text)}
        → Identified content e
        → AllIdentified contents es
        → AllIdentified (content ∷ contents) (e ∷ es)

  checks :
      (content : Text) (p : Option (Partition G)) (path : Text) (magic : ℕ)
      → path_for f r content p ≡ done path
      → check_content f r buf content p magic
        ≡ has_magic magic signed_size (r.opens path) (r.first_bytes path signed_size)
  unfolding check_content check as_ssize
  checks content p path magic made = rw made refl

  known_path :
      (content : Text) (p : Option (Partition G)) (magic : ℕ)
      → check_content f r buf content p magic ≡ done true
      → (path : Text) × (path_for f r content p ≡ done path)
  unfolding check_content
  known_path content p magic e =
      let (path, made, rest) =
        bind-eq-done (path_for f r content p) (λ path. check r buf path magic) e in
      (path, made)

  identify-Identified :
      (content : Text) (e : ℕ × Text)
      → identify f r buf magics content ≡ some (done e)
      → Identified content e
  unfolding identify
  identify-Identified content e ran =
      let (pair, searched, rest) = after-eq-done (find f content) _ ran in
      elim (Bool-cases (is_missing r content pair.0 pair.1)) [
        | inl gone ↦ absurd (cc (sym (if_true _ _ gone) ∙ rest))
        | inr there ↦
            let (found, scanned, last) =
              bind-eq-done (first_magic (check_content f r buf content pair.0) magics)
                (found_or_throw content) (some_injective (sym (if_false _ _ there) ∙ rest)) in
            let first =
              first_magic-FirstHit (check_content f r buf content pair.0) magics e
                (scanned ∙ ap done (found_or_throw-found content found last)) in
            let (path, made) = known_path content pair.0 e.0 (FirstHit-hit _ e magics first) in
            record {
              partition = pair.0;
              t_type = pair.1;
              searched = searched;
              known = is_missing-IsKnown r content pair.0 pair.1 there;
              path = path;
              made = path_for-IsPath f r content pair.0 path made;
              first =
                  FirstHit-same _ _ e magics (λ magic. checks content pair.0 path magic made) first;
            }
      ]

  Identified-identify :
      (content : Text) (e : ℕ × Text)
      → Identified content e
      → identify f r buf magics content ≡ some (done e)
  unfolding identify
  Identified-identify content e i =
      let made = IsPath-path_for f r content i.partition i.path i.made in
      let first =
        FirstHit-same _ (check_content f r buf content i.partition) e magics
          (λ magic. sym (checks content i.partition i.path magic made)) i.first in
      rw
        (
          i.searched,
          IsKnown-is_missing r content i.partition i.t_type i.known,
          FirstHit-first_magic _ magics e first,
        )
        (ap some (found_or_throw_done content e))

  pub identify_all-AllIdentified :
      (contents : List Text) (es : List (ℕ × Text))
      → identify_all f r buf magics contents ≡ some (done es)
      → AllIdentified contents es
  unfolding identify_all
  identify_all-AllIdentified [] es ran =
      subst (AllIdentified []) (done_injective (some_injective ran)) nothing
  identify_all-AllIdentified (content ∷ contents) es ran =
      let (e, one, later) = after-eq-done (identify f r buf magics content) _ ran in
      let (rest, all, last) = after-eq-done (identify_all f r buf magics contents) _ later in
      subst (AllIdentified (content ∷ contents)) (done_injective (some_injective last))
        (next (identify-Identified content e one) (identify_all-AllIdentified contents rest all))

  pub AllIdentified-identify_all :
      (contents : List Text) (es : List (ℕ × Text))
      → AllIdentified contents es
      → identify_all f r buf magics contents ≡ some (done es)
  unfolding identify_all
  AllIdentified-identify_all contents es nothing = refl
  AllIdentified-identify_all (content ∷ contents) (e ∷ es) (next i all) =
      rw (Identified-identify content e i, AllIdentified-identify_all contents es all) refl
