-- ===== src/Buffer/Sliding/History.antt =====
-- The ring against the whole history of the bytes written to it.
use backupgate.Prelude.{
  ℕ, zero, suc, ◌+◌, ◌-◌, ◌%◌, ◌≤◌, ◌<◌, min, ◌≡◌, refl, sym, ap, ◌∙◌, subst, ◌≢◌, false, none,
  some, [], ◌∷◌, ◌++◌, append-nil, append_assoc, arith, dec_lt, ◌>>=◌, length, get_or, set, take,
  drop, replicate, length-append, length-set, get_or-set_self, get_or-set_ne, get_or-append_left,
  get_or-append_self, length-replicate, take-drop-suc, Bytes,
}
use backupgate.Prelude.Int.{ℤ, pos, negsuc, ◌+ℤ◌, int64_end, wrap64}
use native.Mathlib.Nat.{mod-lt, mod-eq_of_lt, mod-add-mod, mod-eq-sub-mod}
use backupgate.Io.{done, offset_unavailable}
use backupgate.Buffer.Sliding.{
  SlidingBuffer, new_sliding_buffer, ring_index, write_from, write, available_range, read_ring,
  read_at_if_available,
}

-- The ring `r` of `w` places holds the last `w` bytes of `h`, each at its offset modulo `w`.
abbrev pub InRing : Bytes → ℕ → Bytes → Type 0
InRing r w h = (i : ℕ) → i < length h → length h ≤ i + w → get_or r (i % w) 0 ≡ get_or h i 0

-- A sliding buffer to which the bytes `h` have been written.
pub record Holds (sb : SlidingBuffer) (h : Bytes) : Type 0 where
  pub window : 0 < sb.window_size
  pub window_small : sb.window_size < int64_end
  pub places : length sb.ring ≡ sb.window_size
  pub written : sb.write_pos ≡ pos (length h)
  pub small : length h < int64_end
  pub held : InRing sb.ring sb.window_size h

-- Two offsets less than a window apart have different places.
mod-ne : (i k w : ℕ) → 0 < k → k < w → i % w ≢ (i + k) % w
mod-ne i k w hk hw e = elim (dec_lt (i % w + k) w) [
  | yes p ↦ omega (arith, mod-eq_of_lt p, mod-add-mod i w k)
  | no p ↦ omega (
    arith,
    mod-lt i {m = w} (omega arith),
    mod-add-mod i w k,
    mod-eq-sub-mod {n = i % w + k} {m = w} (omega arith),
    mod-eq_of_lt {n = i % w + k - w} {m = w} (omega (arith, mod-lt i {m = w} (omega arith))),
  )
]

-- Writing one more byte at its place.
InRing-set :
    (r : Bytes) (w : ℕ) (h : Bytes) (b : ℕ)
    → 0 < w
    → length r ≡ w
    → InRing r w h
    → InRing (set r (length h % w) b) w (h ++ b ∷ [])
InRing-set r w h b hw hr held i hi hwin = elim (dec_lt i (length h)) [
  | yes p ↦
      get_or-set_ne r (length h % w) (i % w) b 0 (apart p)
      ∙ held i p (omega (arith, length-append h (b ∷ [])))
      ∙ sym (get_or-append_left h (b ∷ []) i 0 p)
  | no p ↦
      let e : i ≡ length h = omega (arith, length-append h (b ∷ [])) in
      rw e (
        get_or-set_self r (length h % w) b 0 (omega (arith, mod-lt (length h) {m = w} hw))
        ∙ sym (get_or-append_self h b (length h) 0 refl))
]
  where
    apart : i < length h → length h % w ≢ i % w
    apart p e =
        mod-ne i (length h - i) w (omega arith) (omega (arith, length-append h (b ∷ [])))
          (sym e ∙ ap (λ n. n % w) (omega arith))

ring_index-pos : (k w : ℕ) → 0 < w → ring_index (pos k) w ≡ some (k % w)
unfolding ring_index
ring_index-pos k zero h = absurd (omega arith)
ring_index-pos k (suc w) h = refl

wrap64-add : (a i n : ℕ) → a + i ≡ n → n < int64_end → wrap64 (pos a +ℤ pos i) ≡ pos n
wrap64-add a i n e h = ground arith

-- The place of offset `a + i`, where the sum does not wrap.
ring_place :
    (a i n w : ℕ)
    → a + i ≡ n
    → n < int64_end
    → 0 < w
    → ring_index (wrap64 (pos a +ℤ pos i)) w ≡ some (n % w)
ring_place a i n w e h hw = ap (λ z. ring_index z w) (wrap64-add a i n e h) ∙ ring_index-pos n w hw

-- The loop of `Write` keeps the relation, and does not panic.
write_from-InRing :
    (r : Bytes) (w : ℕ) (h p : Bytes) (at i : ℕ)
    → 0 < w
    → length r ≡ w
    → InRing r w h
    → at + i ≡ length h
    → length h + length p < int64_end
    → (r' : Bytes) × (write_from r w (pos at) i p ≡ some r')
      × (length r' ≡ w)
      × InRing r' w (h ++ p)
unfolding write_from
write_from-InRing r w h [] at i hw hr held e small =
    (r, refl, hr, subst (λ l. InRing r w l) (sym (append-nil h)) held)
write_from-InRing r w h (b ∷ p) at i hw hr held e small =
    let (r', run, hr', held') =
      write_from-InRing (set r (length h % w) b) w (h ++ b ∷ []) p at (i + 1) hw
        (length-set r _ b ∙ hr) (InRing-set r w h b hw hr held)
        (omega (arith, length-append h (b ∷ []))) (omega (arith, length-append h (b ∷ []))) in
    (
      r',
      ap (λ o. o >>= λ idx. write_from (set r idx b) w (pos at) (i + 1) p)
            (ring_place at i (length h) w e (omega arith) hw)
          ∙ run,
      hr',
      subst (λ l. InRing r' w l) (append_assoc h (b ∷ []) p) held',
    )

-- One round of the loop of `ReadAtIfAvailable`.
read_ring-suc :
    (r : Bytes) (w off i n at idx : ℕ) (p : Bytes)
    → ring_index (wrap64 (pos off +ℤ pos i)) w ≡ some idx
    → read_ring r w (pos off) (i + 1) n ≡ some p
    → read_ring r w (pos off) i (suc n) ≡ some (get_or r idx 0 ∷ p)
unfolding read_ring
read_ring-suc r w off i n at idx p place rest =
    ap (λ o. o >>= λ k. read_ring r w (pos off) (i + 1) n >>= λ q. some (get_or r k 0 ∷ q)) place
    ∙ ap (λ o. o >>= λ q. some (get_or r idx 0 ∷ q)) rest

-- The loop of `ReadAtIfAvailable` gives the bytes of the history, and does not panic.
read_ring-take :
    (r : Bytes) (w : ℕ) (h : Bytes) (off i n at : ℕ)
    → 0 < w
    → InRing r w h
    → length h < int64_end
    → off + i ≡ at
    → at + n ≤ length h
    → length h ≤ at + w
    → read_ring r w (pos off) i n ≡ some (take n (drop at h))
unfolding read_ring
read_ring-take r w h off i zero at hw held small e hn hwin = refl
read_ring-take r w h off i (suc n) at hw held small e hn hwin =
    read_ring-suc r w off i n at _ _ (ring_place off i at w e (omega arith) hw) (
      read_ring-take r w h off (i + 1) n (suc at) hw held small (omega arith) (omega arith)
        (omega arith))
    ∙ ap some (
        ap (λ x. x ∷ take n (drop (suc at) h)) (held at (omega arith) hwin)
        ∙ sym (take-drop-suc n at h 0 (omega arith)))

-- A new buffer with a positive window holds nothing.
pub new_sliding_buffer-Holds :
    (w : ℕ)
    → 0 < w
    → w < int64_end
    → (sb : SlidingBuffer) × (new_sliding_buffer (pos w) ≡ done sb)
      × (sb.closed ≡ false)
      × (sb.window_size ≡ w)
      × Holds sb []
unfolding new_sliding_buffer
new_sliding_buffer-Holds w hw small = (
  record { ring = replicate w 0; window_size = w; write_pos = pos 0; closed = false },
  refl,
  refl,
  refl,
  record {
    window = hw;
    window_small = small;
    places = length-replicate w 0;
    written = refl;
    small = omega arith;
    held = λ i hi _. absurd (omega arith);
  },
)

write-done :
    (sb : SlidingBuffer) (n : ℕ) (p r' : Bytes)
    → sb.closed ≡ false
    → sb.write_pos ≡ pos n
    → n + length p < int64_end
    → write_from sb.ring sb.window_size (pos n) 0 p ≡ some r'
    → write sb p ≡ done (length p, none, record sb { ring = r'; write_pos = pos (n + length p) })
unfolding write
write-done sb n p r' opened at small run = ground arith

-- `Write` on an open buffer, while the history stays shorter than the largest int64, takes all of
-- `p` without a panic: it reports its length and no error, the buffer stays open with its window,
-- and it then holds the history with `p` appended.
pub write-Holds :
    (sb : SlidingBuffer) (h p : Bytes)
    → Holds sb h
    → sb.closed ≡ false
    → length h + length p < int64_end
    → (sb' : SlidingBuffer) × (write sb p ≡ done (length p, none, sb'))
      × (sb'.closed ≡ false)
      × (sb'.window_size ≡ sb.window_size)
      × Holds sb' (h ++ p)
write-Holds sb h p v opened small =
    let (r', run, places, held) =
      write_from-InRing sb.ring sb.window_size h p (length h) 0 v.window v.places v.held
        (omega arith) small in
    (
      record sb { ring = r'; write_pos = pos (length h + length p) },
      write-done sb (length h) p r' opened v.written small run,
      opened,
      refl,
      record {
        window = v.window;
        window_small = v.window_small;
        places = places;
        written = ap pos (sym (length-append h p));
        small = omega (arith, length-append h p);
        held = held;
      },
    )

-- `AvailableRange` is the range of the last `window_size` offsets of the history, or all of them if
-- it is shorter.
pub available_range_lem :
    (sb : SlidingBuffer) (h : Bytes)
    → Holds sb h
    → available_range sb ≡ (pos (length h - sb.window_size), pos (length h))
unfolding available_range
available_range_lem sb h v = ground arith

read_at_if_available-done :
    (sb : SlidingBuffer) (n len o : ℕ) (p : Bytes)
    → sb.write_pos ≡ pos n
    → n < int64_end
    → sb.window_size < int64_end
    → o < n
    → n ≤ o + sb.window_size
    → read_ring sb.ring sb.window_size (pos o) 0 (min len (n - o)) ≡ some p
    → read_at_if_available sb len (pos o) ≡ done (p, none)
unfolding read_at_if_available
read_at_if_available-done sb n len o p at small wsmall lo hi run = ground arith

-- `ReadAtIfAvailable` at an offset in the available range returns, without a panic or an error, the
-- bytes of the history from that offset on: as many as `p` takes and the history has.
pub read_at_if_available-kept :
    (sb : SlidingBuffer) (h : Bytes) (len o : ℕ)
    → Holds sb h
    → o < length h
    → length h ≤ o + sb.window_size
    → read_at_if_available sb len (pos o) ≡ done (take (min len (length h - o)) (drop o h), none)
read_at_if_available-kept sb h len o v lo hi =
    read_at_if_available-done sb (length h) len o _ v.written v.small v.window_small lo hi (
      read_ring-take sb.ring sb.window_size h o 0 (min len (length h - o)) o v.window v.held v.small
        (omega arith) (omega arith) hi)

-- `ReadAtIfAvailable` at an offset outside the available range, also a negative one, returns no byte
-- and `ErrOffsetUnavailable`, without a panic.
pub read_at_if_available-unavailable :
    (sb : SlidingBuffer) (h : Bytes) (len : ℕ) (off : ℤ)
    → Holds sb h
    → ((o : ℕ) → off ≡ pos o → o < length h → length h ≤ o + sb.window_size → ⊥)
    → read_at_if_available sb len off ≡ done ([], some offset_unavailable)
unfolding read_at_if_available
read_at_if_available-unavailable sb h len (pos o) v out = ground (arith, out o refl)
read_at_if_available-unavailable sb h len (negsuc o) v out = ground arith
