-- ===== src/Block/Entries.antt =====
-- What `AddBlock` collects: the keys in reverse order, the values in order.
use compaction_test.Base.{
  ◌>>=◌, ℕ, zero, suc, ◌+◌, ◌-◌, none, some, List, [], ◌∷◌, ◌++◌, true, ◌==◌, if◌then◌else◌, Bytes,
  length, take, drop, get_elem?, get_elem?-some, drop-get_elem?, take-get_elem?, take_all, drop_all,
  concat, reverse, append-nil, append_assoc, ◌≡◌, sym, ap, ◌∙◌, arith,
}
use mathlib.Core.List.{reverse-append}
use mathlib.Core.Path.{ap₂}
use native.Mathlib.Decide.{ℕ_discrete}
use compaction_test.Block.{Block, new_block, add_entries, add_block}

abbrev filled : Block → Bytes → Bytes → Block
filled b ks vs = record b {
  key_content = b.key_content ++ ks;
  value_content = b.value_content ++ vs;
}

filled_twice :
    (b : Block) (k v ks vs : Bytes) → filled (filled b k v) ks vs ≡ filled b (k ++ ks) (v ++ vs)
filled_twice b k v ks vs =
    ap₂ (λ s t. record b { key_content = s; value_content = t }) (append_assoc b.key_content k ks)
      (append_assoc b.value_content v vs)

concat-reverse :
    (k : Bytes) (ks : List Bytes) → concat (reverse (ks ++ (k ∷ []))) ≡ k ++ concat (reverse ks)
concat-reverse k ks = ap concat (reverse-append ks (k ∷ []))

add_entries_step :
    (keys values : List Bytes) (left i : ℕ) (b : Block) (key value : Bytes)
    → i + suc left ≡ length keys
    → get_elem? keys left ≡ some key
    → get_elem? values i ≡ some value
    → add_entries keys values (suc left) i b
      ≡ add_entries keys values left (i + 1) (filled b key value)
unfolding add_entries
add_entries_step keys values left i b key value hi hk hv =
    let at_left : length keys - i - 1 ≡ left = omega arith in rw (at_left, hk, hv)

add_entries_lem :
    (keys values : List Bytes) (left i : ℕ) (b : Block)
    → i + left ≡ length keys
    → length keys ≡ length values
    → add_entries keys values left i b
      ≡ some (filled b (concat (reverse (take left keys))) (concat (drop i values)))
add_entries_lem keys values zero i b hi hv =
    unfold add_entries in
    ap some (
      ap₂ (λ s t. record b { key_content = s; value_content = t }) (sym (append-nil b.key_content))
        (sym (
          ap (λ t. b.value_content ++ concat t) (drop_all i values (omega arith))
          ∙ append-nil b.value_content)))
add_entries_lem keys values (suc left) i b hi hv =
    let (key, hk) = get_elem?-some keys left (omega arith) in
    let (value, hw) = get_elem?-some values i (omega arith) in
    let next : suc i ≡ i + 1 = omega arith in
    let vs : value ++ concat (drop (i + 1) values) ≡ concat (drop i values) =
      ap (λ t. value ++ concat (drop t values)) (sym next)
      ∙ ap concat (sym (drop-get_elem? values i value hw)) in
    let ks : key ++ concat (reverse (take left keys)) ≡ concat (reverse (take (suc left) keys)) =
      sym (concat-reverse key (take left keys))
      ∙ ap (λ t. concat (reverse t)) (sym (take-get_elem? keys left key hk)) in
    add_entries_step keys values left i b key value hi hk hw
    ∙ add_entries_lem keys values left (i + 1) (filled b key value) (omega arith) hv
    ∙ ap some (
        filled_twice b key value (concat (reverse (take left keys))) (concat (drop (i + 1) values)))
    ∙ ap₂ (λ s t. some (filled b s t)) ks vs

abbrev pub collected : ℕ → List Bytes → List Bytes → Block
collected id keys values = record {
  content_block = [];
  key_content = concat (reverse keys);
  value_content = concat values;
  num_of_entries = length keys;
  block_id = id;
}

-- On as many values as keys, `AddBlock` of either class composes a new block from the keys in
-- reverse order and the values in order; on other sizes its assertion fails.
pub add_block_lem :
    (compose : Block → Block) (keys values : List Bytes) (id : ℕ)
    → add_block compose keys values (new_block id)
      ≡ (if length keys == length values then some (compose (collected id keys values)) else none)
unfolding add_block new_block
add_block_lem compose keys values id = elim (ℕ_discrete (length keys) (length values)) [
  | no differ ↦ ground arith
  | yes same ↦
      let done =
        add_entries_lem keys values (length keys) 0
          (record (new_block id) { num_of_entries = length keys }) (omega arith) same in
      let all : take (length keys) keys ≡ keys = take_all (length keys) keys (omega arith) in
      let test : (length keys == length values) ≡ true = ground arith in
      rw test (
        ap (λ m. m >>= λ b. some (compose b))
          (done
            ∙ ap
                (λ t. some (record (collected id keys values) { key_content = concat (reverse t) }))
                all))
]
