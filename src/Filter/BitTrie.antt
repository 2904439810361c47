-- ===== src/Filter/BitTrie.antt =====
-- The byte trie over the leading masked bits (internal/filter/index.go).
pub mod Lookup
pub mod Prefix
use tagstrak.Common.{
  ℕ, zero, suc, ◌+◌, ◌-◌, ◌*◌, ◌/◌, ◌%◌, ◌^◌, Bool, true, false, ◌&&◌, ◌||◌, not, List, [], ◌∷◌,
  ◌++◌, Bytes, take, get_or, Option, none, some, ltb, ◌==◌, if◌then◌else◌, bit_and,
}
use tagstrak.Filter.Subscription.{Subject}
use tagstrak.Filter.Entry.{Entry, confirm}

-- `bitEntry`: what is left to test of the next byte; a zero mask means nothing.
pub record BitEntry : Type 0 where
  pub entry : Entry
  pub rem_mask : ℕ
  pub rem_value : ℕ

-- `bitNode`: its entries, and its children by their bytes, in the order of the slice `keys`.
mutual
  pub data BitNode : Type 0 where
    node : List BitEntry → BitKids → BitNode

  pub data BitKids : Type 0 where
    no_kids : BitKids
    kid : ℕ → BitNode → BitKids → BitKids

abbrev pub empty_node : BitNode
empty_node = node [] no_kids

-- `bitNode.child` and the assignment through the pointer that it returns. The keys are sorted, so
-- the binary search ends at the first key that is not below the byte: there stands the child, or it
-- is inserted there.
unfoldable pub update_kid : ℕ → (BitNode → BitNode) → BitKids → BitKids
update_kid b f no_kids = kid b (f empty_node) no_kids
update_kid b f (kid k n kids) =
    let later = kid k n (update_kid b f kids) in
    if ltb k b
    then later
    else if k == b
    then kid k (f n) kids
    else kid b (f empty_node) (kid k n kids)

-- The binary search of a walk
unfoldable pub find_kid : ℕ → BitKids → Option BitNode
find_kid b no_kids = none
find_kid b (kid k n kids) = if ltb k b then find_kid b kids else if k == b then some n else none

abbrev with_entry : BitEntry → BitNode → BitNode
with_entry e (node entries kids) = node (entries ++ e ∷ []) kids

abbrev with_kids : (BitKids → BitKids) → BitNode → BitNode
with_kids f (node entries kids) = node entries (f kids)

-- The loop of `add` down the whole bytes of the prefix, and the append at its end.
unfoldable pub add_bits : Bytes → BitEntry → BitNode → BitNode
add_bits [] e n = with_entry e n
add_bits (b ∷ path) e n = with_kids (update_kid b (add_bits path e)) n

-- `bits.LeadingZeros8`
unfoldable pub leading_zeros8 : ℕ → ℕ
leading_zeros8 x =
    if ltb x 1
    then 8
    else if ltb x 2
    then 7
    else if ltb x 4
    then 6
    else if ltb x 8
    then 5
    else if ltb x 16
    then 4
    else if ltb x 32
    then 3
    else if ltb x 64
    then 2
    else if ltb x 128
    then 1
    else 0

-- `leadingOnes`
unfoldable pub leading_ones : ℕ → Bytes → ℕ
unfolding leading_zeros8
leading_ones n [] = n
leading_ones n (b ∷ mask) =
    let rest = leading_ones (n + 8) mask in
    if not (b == 0xff) then n + leading_zeros8 (255 - b) else rest

-- `byte(0xff << (8 - rem))`
abbrev pub high_mask : ℕ → ℕ
high_mask rem = 0xff * 2 ^ (8 - rem) % 256

-- The entry that `add` appends at the end of the path, for a mask with `n` leading ones.
unfoldable pub bit_entry : Entry → ℕ → Bytes → BitEntry
bit_entry e n value =
    if not (n % 8 == 0)
    then record {
      entry = e;
      rem_mask = high_mask (n % 8);
      rem_value = bit_and (get_or value (n / 8) 0) (high_mask (n % 8));
    }
    else record { entry = e; rem_mask = 0; rem_value = 0 }

-- The test of an entry on the next byte of the tag, if there is one.
unfoldable pub rem_passes : Option ℕ → BitEntry → Bool
rem_passes none e = e.rem_mask == 0
rem_passes (some next) e = e.rem_mask == 0 || bit_and next e.rem_mask == e.rem_value

-- The loop of `walkBits` over the entries of a node
unfoldable pub scan_bits : List Bytes → Subject → Option ℕ → List BitEntry → List Bytes → List Bytes
unfolding rem_passes confirm
scan_bits ids s next [] dst = dst
scan_bits ids s next (e ∷ es) dst =
    scan_bits ids s next es (if rem_passes next e then confirm ids s e.entry dst else dst)

abbrev entries_of : BitNode → List BitEntry
entries_of (node entries kids) = entries

abbrev kids_of : BitNode → BitKids
kids_of (node entries kids) = kids

-- `walkBits` on the bytes of the tag that are left
unfoldable pub walk_bits : List Bytes → Subject → BitNode → Bytes → List Bytes → List Bytes
unfolding scan_bits find_kid
walk_bits ids s n [] dst = scan_bits ids s none (entries_of n) dst
walk_bits ids s n (b ∷ bits) dst =
    let dst' = scan_bits ids s (some b) (entries_of n) dst in
    elim (find_kid b (kids_of n)) [ none ↦ dst' | some child ↦ walk_bits ids s child bits dst' ]
