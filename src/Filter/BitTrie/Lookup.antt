-- ===== src/Filter/BitTrie/Lookup.antt =====
-- What an added entry changes about the walk down the byte trie.
use tagstrak.Common.{
  ℕ, ◌≡◌, refl, sym, ap, ◌∙◌, arith, Bool, false, ◌&&◌, ◌||◌, List, [], ◌∷◌, ◌++◌, Bytes, Option,
  none, some, ◌==◌, if◌then◌else◌, Bool-cases, Option-cases, inl, inr, append-nil,
}
use tagstrak.Filter.Subscription.{Subject}
use tagstrak.Filter.Entry.{confirm}
use tagstrak.Filter.Found.{
  has, has-append, hit, found_one, has-found_one, with_ids, with_ids-append, confirm-found,
}
use tagstrak.Filter.BitTrie.{
  BitEntry, BitNode, BitKids, node, no_kids, kid, empty_node, update_kid, find_kid, add_bits,
  rem_passes, scan_bits, walk_bits, entries_of, kids_of,
}

-- A look-up after an update: the updated child under its byte, and any other child as before.
abbrev or_empty : Option BitNode → BitNode
or_empty none = empty_node
or_empty (some n) = n

find_kid-update_kid :
    (b p : ℕ) (f : BitNode → BitNode) (kids : BitKids)
    → find_kid b (update_kid p f kids)
      ≡ (if p == b then some (f (or_empty (find_kid b kids))) else find_kid b kids)
unfolding find_kid update_kid
find_kid-update_kid b p f no_kids = ground arith
find_kid-update_kid b p f (kid k n kids) = ground (arith, find_kid-update_kid b p f kids)

-- The ranks that a walk confirms.
abbrev found_entry : Subject → Option ℕ → BitEntry → List ℕ
found_entry s next e = if rem_passes next e then found_one s e.entry else []

pub found_scan : Subject → Option ℕ → List BitEntry → List ℕ
found_scan s next [] = []
found_scan s next (e ∷ es) = found_entry s next e ++ found_scan s next es

pub found_bits : Subject → BitNode → Bytes → List ℕ
found_bits s n [] = found_scan s none (entries_of n)
found_bits s n (b ∷ bits) =
    found_scan s (some b) (entries_of n)
    ++ elim (find_kid b (kids_of n)) [ none ↦ [] | some child ↦ found_bits s child bits ]

scan_bits-cons :
    (ids : List Bytes) (s : Subject) (next : Option ℕ) (e : BitEntry) (es : List BitEntry)
    (dst : List Bytes)
    → scan_bits ids s next (e ∷ es) dst
      ≡ scan_bits ids s next es (if rem_passes next e then confirm ids s e.entry dst else dst)
unfolding scan_bits
scan_bits-cons ids s next e es dst = refl

entry-found :
    (ids : List Bytes) (s : Subject) (next : Option ℕ) (e : BitEntry) (dst : List Bytes)
    → (if rem_passes next e then confirm ids s e.entry dst else dst)
      ≡ with_ids ids dst (found_entry s next e)
entry-found ids s next e dst = elim (Bool-cases (rem_passes next e)) [
  | inl passes ↦ rw passes (confirm-found ids s e.entry dst)
  | inr other ↦ rw other (sym (append-nil dst))
]

scan_bits-found :
    (ids : List Bytes) (s : Subject) (next : Option ℕ) (es : List BitEntry) (dst : List Bytes)
    → scan_bits ids s next es dst ≡ with_ids ids dst (found_scan s next es)
unfolding found_scan rem_passes
scan_bits-found ids s next [] dst = unfold scan_bits in sym (append-nil dst)
scan_bits-found ids s next (e ∷ es) dst =
    scan_bits-cons ids s next e es dst
    ∙ scan_bits-found ids s next es (if rem_passes next e then confirm ids s e.entry dst else dst)
    ∙ ap (λ d. with_ids ids d (found_scan s next es)) (entry-found ids s next e dst)
    ∙ with_ids-append ids dst (found_entry s next e) (found_scan s next es)

-- The rest of a walk, below the child for the next byte
abbrev found_below : Subject → Option BitNode → Bytes → List ℕ
found_below s none bits = []
found_below s (some child) bits = found_bits s child bits

abbrev walk_below : List Bytes → Subject → Option BitNode → Bytes → List Bytes → List Bytes
walk_below ids s none bits dst = dst
walk_below ids s (some child) bits dst = walk_bits ids s child bits dst

walk_bits-cons :
    (ids : List Bytes) (s : Subject) (n : BitNode) (b : ℕ) (bits : Bytes) (dst : List Bytes)
    → walk_bits ids s n (b ∷ bits) dst
      ≡ walk_below ids s (find_kid b (kids_of n)) bits (scan_bits ids s (some b) (entries_of n) dst)
unfolding walk_bits scan_bits
walk_bits-cons ids s n b bits dst = elim (Option-cases (find_kid b (kids_of n))) [
  | inl e ↦ rw (e, walk_bits)
  | inr (child, e) ↦ rw (e, walk_bits)
]

found_bits-cons :
    (s : Subject) (n : BitNode) (b : ℕ) (bits : Bytes)
    → found_bits s n (b ∷ bits)
      ≡ found_scan s (some b) (entries_of n) ++ found_below s (find_kid b (kids_of n)) bits
unfolding found_bits
found_bits-cons s n b bits = elim (Option-cases (find_kid b (kids_of n))) [
  | inl e ↦ rw (e, found_bits)
  | inr (child, e) ↦ rw (e, found_bits)
]

pub walk_bits-found :
    (ids : List Bytes) (s : Subject) (n : BitNode) (bits : Bytes) (dst : List Bytes)
    → walk_bits ids s n bits dst ≡ with_ids ids dst (found_bits s n bits)
walk_bits-found ids s n [] dst =
    unfold walk_bits found_bits in scan_bits-found ids s none (entries_of n) dst
walk_bits-found ids s n (b ∷ bits) dst =
    let top = found_scan s (some b) (entries_of n) in
    walk_bits-cons ids s n b bits dst
    ∙ ap (walk_below ids s (find_kid b (kids_of n)) bits)
        (scan_bits-found ids s (some b) (entries_of n) dst)
    ∙ below (with_ids ids dst top) (find_kid b (kids_of n))
        (λ child. walk_bits-found ids s child bits (with_ids ids dst top))
    ∙ with_ids-append ids dst top (found_below s (find_kid b (kids_of n)) bits)
    ∙ ap (with_ids ids dst) (sym (found_bits-cons s n b bits))
  where
    below :
        (d : List Bytes) (o : Option BitNode)
        → ((child : BitNode)
            → walk_bits ids s child bits d ≡ with_ids ids d (found_bits s child bits))
        → walk_below ids s o bits d ≡ with_ids ids d (found_below s o bits)
    below d none ih = sym (append-nil d)
    below d (some child) ih = ih child

has-found_entry :
    (r : ℕ) (s : Subject) (next : Option ℕ) (e : BitEntry)
    → has r (found_entry s next e) ≡ (rem_passes next e && hit r s e.entry)
has-found_entry r s next e = ground (arith, has-found_one r s e.entry)

has-found_scan :
    (r : ℕ) (s : Subject) (next : Option ℕ) (es : List BitEntry) (e : BitEntry)
    → has r (found_scan s next (es ++ e ∷ []))
      ≡ (has r (found_scan s next es) || (rem_passes next e && hit r s e.entry))
unfolding found_scan
has-found_scan r s next [] e = rw (append-nil, has-found_entry r s next e)
has-found_scan r s next (x ∷ es) e = ground (
  arith,
  has-append r (found_entry s next x) (found_scan s next (es ++ e ∷ [])),
  has-append r (found_entry s next x) (found_scan s next es),
  has-found_scan r s next es e,
)

-- Whether a walk over these bytes comes to an entry at the end of a path, and passes its test.
unfoldable pub reach : Bytes → BitEntry → Bytes → Bool
reach [] e [] = rem_passes none e
reach [] e (b ∷ bits) = rem_passes (some b) e
reach (p ∷ path) e [] = false
reach (p ∷ path) e (b ∷ bits) = p == b && reach path e bits

pub found_bits-empty : (s : Subject) (bits : Bytes) → found_bits s empty_node bits ≡ []
unfolding found_bits found_scan find_kid
found_bits-empty s [] = refl
found_bits-empty s (b ∷ bits) = refl

found_bits-or_empty :
    (s : Subject) (o : Option BitNode) (bits : Bytes)
    → found_bits s (or_empty o) bits ≡ found_below s o bits
found_bits-or_empty s none bits = found_bits-empty s bits
found_bits-or_empty s (some n) bits = refl

-- The step of `has-add_bits` below the child for the next byte.
has-found_below :
    (r : ℕ) (s : Subject) (b p : ℕ) (path : Bytes) (e : BitEntry) (kids : BitKids) (bits : Bytes)
    → has r (found_bits s (add_bits path e (or_empty (find_kid b kids))) bits) ≡ (
        has r (found_bits s (or_empty (find_kid b kids)) bits)
        || (reach path e bits && hit r s e.entry))
    → has r (found_below s (find_kid b (update_kid p (add_bits path e) kids)) bits) ≡ (
        has r (found_below s (find_kid b kids) bits)
        || (reach (p ∷ path) e (b ∷ bits) && hit r s e.entry))
unfolding reach
has-found_below r s b p path e kids bits ih = elim (Bool-cases (p == b)) [
  | inl same ↦
      rw (find_kid-update_kid b p (add_bits path e) kids, same)
        (ih
          ∙ ap (λ t. has r t || (reach path e bits && hit r s e.entry))
              (found_bits-or_empty s (find_kid b kids) bits))
  | inr other ↦ rw (find_kid-update_kid b p (add_bits path e) kids, other) (ground arith)
]

-- A walk finds what it found before, and the added entry if it comes to it.
pub has-add_bits :
    (r : ℕ) (s : Subject) (path : Bytes) (e : BitEntry) (n : BitNode) (bits : Bytes)
    → has r (found_bits s (add_bits path e n) bits)
      ≡ (has r (found_bits s n bits) || (reach path e bits && hit r s e.entry))
unfolding add_bits
has-add_bits r s [] e (node es kids) [] = unfold reach found_bits in has-found_scan r s none es e
has-add_bits r s [] e (node es kids) (b ∷ bits) =
    let below = found_below s (find_kid b kids) bits in
    rw
      (found_bits-cons s (node es kids) b bits, found_bits-cons s (node (es ++ e ∷ []) kids) b bits)
      (unfold reach in
        ground (
          arith,
          has-append r (found_scan s (some b) (es ++ e ∷ [])) below,
          has-append r (found_scan s (some b) es) below,
          has-found_scan r s (some b) es e,
        ))
has-add_bits r s (p ∷ path) e (node es kids) [] = unfold reach found_bits in ground arith
has-add_bits r s (p ∷ path) e (node es kids) (b ∷ bits) =
    let kids' = update_kid p (add_bits path e) kids in
    let top = found_scan s (some b) es in
    rw (found_bits-cons s (node es kids) b bits, found_bits-cons s (node es kids') b bits)
      (ground (
        arith,
        has-append r top (found_below s (find_kid b kids) bits),
        has-append r top (found_below s (find_kid b kids') bits),
        has-found_below r s b p path e kids bits
            (has-add_bits r s path e (or_empty (find_kid b kids)) bits),
      ))
