-- ===== src/TreeFunction/Overlap.antt =====
-- `find_overlap_in_node`: the longest of the matches of fewer bits than its limit.
use native.Mathlib.Nat.{div-div-eq-div-mul, pow-suc}
use prefix_lookup_mc.Base.{
  ℕ, zero, suc, ◌-◌, ◌*◌, ◌/◌, ◌^◌, ◌≤◌, ◌<◌, ◌≡◌, sym, ap, ◌∙◌, arith, true, false, Option, none,
  some, ◌==◌, Bool-cases, inl, inr,
}
use prefix_lookup_mc.Bits.{count_inl_bitmap, test_bitmap}
use prefix_lookup_mc.Bits.Digits.{zero-bit}
use prefix_lookup_mc.Bits.Words.{test_bitmap_lem}
use prefix_lookup_mc.Address.Word.{pow-split}
use prefix_lookup_mc.TreeFunction.{find_overlap_in_node, overlap_loop}

-- The position of the prefix of the first `k` bits of a stride of `i` bits.
abbrev pub head_pos : ℕ → ℕ → ℕ → ℕ
head_pos i stride k = count_inl_bitmap (stride / 2 ^ (i - k)) k

-- `result` is the longest prefix of the stride, of fewer than `limit` bits, whose bit is set.
pub record IsLongestBelow (limit i stride bitmap : ℕ) (result : Option (ℕ × ℕ)) : Type 0 where
  pub none_set :
      result ≡ none → (k : ℕ) → k < limit → test_bitmap bitmap (head_pos i stride k) ≡ false
  pub position :
      (pos mask : ℕ)
      → result ≡ some (pos, mask)
      → (mask < limit)
        × (pos ≡ head_pos i stride mask)
        × (test_bitmap bitmap pos ≡ true)
        × ((k : ℕ) → mask < k → k < limit → test_bitmap bitmap (head_pos i stride k) ≡ false)

head_half : (i stride k : ℕ) → k < i → head_pos (suc i) stride k ≡ head_pos i (stride / 2) k
head_half i stride k h =
    let one_more : suc i - k ≡ suc (i - k) = omega arith in
    let power : 2 ^ (suc i - k) ≡ 2 * 2 ^ (i - k) =
      ap (λ (t : ℕ). 2 ^ t) one_more ∙ omega (arith, pow-suc 2 (i - k)) in
    ap (λ (t : ℕ). count_inl_bitmap t k)
      (ap (λ (t : ℕ). stride / t) power ∙ sym (div-div-eq-div-mul stride 2 (2 ^ (i - k))))

head_top : (i stride : ℕ) → head_pos (suc i) stride i ≡ count_inl_bitmap (stride / 2) i
head_top i stride =
    let one : suc i - i ≡ 1 = omega arith in ap (λ (t : ℕ). count_inl_bitmap (stride / 2 ^ t) i) one

overlap_loop_lem :
    (i stride bitmap : ℕ) → IsLongestBelow i i stride bitmap (overlap_loop i stride bitmap)
unfolding overlap_loop
overlap_loop_lem zero stride bitmap = record {
  none_set = λ e k l. absurd (omega arith);
  position = λ pos mask e. absurd (ground arith);
}
overlap_loop_lem (suc i) stride bitmap =
    let shorter = overlap_loop_lem i (stride / 2) bitmap in
    let top = head_top i stride in
    elim (Bool-cases (test_bitmap bitmap (count_inl_bitmap (stride / 2) i))) [
      | inl on ↦ rw on (here i stride bitmap on)
      | inr off ↦ rw off (there i stride bitmap off (overlap_loop i (stride / 2) bitmap) shorter)
    ]
  where
    here :
        (i stride bitmap : ℕ)
        → test_bitmap bitmap (count_inl_bitmap (stride / 2) i) ≡ true
        → IsLongestBelow (suc i) (suc i) stride bitmap (some (count_inl_bitmap (stride / 2) i, i))
    here i stride bitmap on = record {
      none_set = λ e. absurd (ground arith);
      position = λ pos mask e.
          let at : count_inl_bitmap (stride / 2) i ≡ pos = ground arith in
          let len : i ≡ mask = ground arith in
          (
            omega arith,
            rw (← at, ← len) (sym (head_top i stride)),
            rw (← at) on,
            λ k l l'. absurd (omega (arith, len)),
          );
    }

    there :
        (i stride bitmap : ℕ)
        → test_bitmap bitmap (count_inl_bitmap (stride / 2) i) ≡ false
        → (result : Option (ℕ × ℕ)) → IsLongestBelow i i (stride / 2) bitmap result
        → IsLongestBelow (suc i) (suc i) stride bitmap result
    there i stride bitmap off result h = record {
      none_set = λ e k l. off_at k l (h.none_set e k);
      position = λ pos mask e.
          let found = h.position pos mask e in
          (
            omega (arith, found.0),
            found.1 ∙ sym (head_half i stride mask found.0),
            found.2,
            λ k l l'. off_at k l' (λ l''. found.3 k l l''),
          );
    }
      where
        off_at :
            (k : ℕ)
            → k < suc i
            → (k < i → test_bitmap bitmap (head_pos i (stride / 2) k) ≡ false)
            → test_bitmap bitmap (head_pos (suc i) stride k) ≡ false
        off_at k l below = elim (Bool-cases (k == i)) [
          | inl same ↦
              let e : k ≡ i = ground arith in
              rw e (ap (test_bitmap bitmap) (head_top i stride) ∙ off)
          | inr apart ↦
              let l' : k < i = ground (arith, l, apart) in
              ap (test_bitmap bitmap) (head_half i stride k l') ∙ below l'
        ]

head_limit :
    (limit stride k : ℕ)
    → k < limit
    → limit ≤ 6
    → head_pos limit (stride / 2 ^ (6 - limit)) k ≡ head_pos 6 stride k
head_limit limit stride k l l' =
    let power : 2 ^ (6 - k) ≡ 2 ^ (6 - limit) * 2 ^ (limit - k) =
      pow-split (6 - k) (6 - limit) (limit - k) (omega arith) in
    ap (λ (t : ℕ). count_inl_bitmap t k)
      (div-div-eq-div-mul stride (2 ^ (6 - limit)) (2 ^ (limit - k))
        ∙ ap (λ (t : ℕ). stride / t) (sym power))

-- For a limit of at most 6 bits, find_overlap_in_node gives -1 when none of the stride's prefixes of fewer
-- bits than the limit is set in the bitmap; else it gives the position of the longest of them that is,
-- and its number of bits as the mask.
pub find_overlap_in_node_lem :
    (bitmap stride limit : ℕ)
    → limit ≤ 6
    → IsLongestBelow limit 6 stride bitmap (find_overlap_in_node bitmap stride limit)
unfolding find_overlap_in_node
find_overlap_in_node_lem bitmap stride limit l = elim (Bool-cases (bitmap == 0)) [
  | inl zero_bits ↦
      let e : bitmap ≡ 0 = ground arith in
      rw zero_bits (record {
        none_set = λ e' k l'. rw (e, test_bitmap_lem) (zero-bit (head_pos 6 stride k));
        position = λ pos mask e'. absurd (ground arith);
      })
  | inr some_bits ↦
      let h = overlap_loop_lem limit (stride / 2 ^ (6 - limit)) bitmap in
      rw some_bits (record {
        none_set = λ e k l'.
            ap (test_bitmap bitmap) (sym (head_limit limit stride k l' l)) ∙ h.none_set e k l';
        position = λ pos mask e.
            let found = h.position pos mask e in
            (
              found.0,
              found.1 ∙ head_limit limit stride mask found.0 l,
              found.2,
              λ k l' l''.
                  ap (test_bitmap bitmap) (sym (head_limit limit stride k l'' l))
                  ∙ found.3 k l' l'',
            );
      })
]
