-- ===== src/Linux/Writing/Sends.antt =====
-- What the loops of `comento_mmio_write` send, and when they do not end.
use device_driver_on_so_c.Prelude.{
  ℕ, zero, suc, ◌+◌, ◌-◌, ◌≤◌, ◌<◌, ◌≡◌, min, refl, sym, ap, ◌∙◌, arith, inl, inr, List, [], ◌∷◌,
  ◌++◌, ltb, Bool-cases, length, take, drop, length-take, length-drop, take-append-drop, drop-drop,
  drop_all,
}
use device_driver_on_so_c.Linux.Kernel.{done, running}
use device_driver_on_so_c.Linux.Writing.{chunk_size, send_all, write_loop}

-- The user's buffer can be read up to the end of `bytes`, and no further: `copy_from_user` copies
-- what it can of the `n` bytes from `off` on.
abbrev pub Readable : (ℕ → ℕ → List ℕ) → List ℕ → Type 0
Readable copy_in bytes = (off n : ℕ) → copy_in off n ≡ take n (drop off bytes)

module _ (copy_in : ℕ → ℕ → List ℕ) (bytes : List ℕ) (user : Readable copy_in bytes) where
  pub length-chunk : (off n : ℕ) → length (copy_in off n) ≡ min n (length bytes - off)
  length-chunk off n =
      rw (user off n) (omega (arith, length-take n (drop off bytes), length-drop off bytes))

  pub chunk-append-rest :
      (off n : ℕ)
      → n ≤ length bytes - off
      → copy_in off n ++ drop (off + length (copy_in off n)) bytes ≡ drop off bytes
  chunk-append-rest off n h =
      rw (user off n, length-take n (drop off bytes), length-drop off bytes, whole)
        (rw (← drop-drop off n bytes) (take-append-drop n (drop off bytes)))
    where
      whole : min n (length bytes - off) ≡ n
      whole = omega arith

module _ {ℓ} {Block : Type ℓ} (send_byte : Block → ℕ → Block) where
  pub send_all-append :
      (d : Block) (xs ys : List ℕ)
      → send_all send_byte d (xs ++ ys) ≡ send_all send_byte (send_all send_byte d xs) ys
  unfolding send_all
  send_all-append d [] ys = refl
  send_all-append d (x ∷ xs) ys = send_all-append (send_byte d x) xs ys

  module _ (copy_in : ℕ → ℕ → List ℕ) (bytes : List ℕ) (user : Readable copy_in bytes) where
    pub write_loop_lem :
        (fuel : ℕ) (d : Block) (off len : ℕ)
        → off + len ≡ length bytes
        → len < fuel
        → write_loop send_byte copy_in fuel d off len
          ≡ done (length bytes, send_all send_byte d (drop off bytes))
    unfolding write_loop
    write_loop_lem zero d off len e h = absurd (omega arith)
    write_loop_lem (suc fuel) d off len e h = elim (Bool-cases (ltb 0 len)) [
      | inl more ↦
          let n : ℕ = min len chunk_size in
          let chunk : List ℕ = copy_in off n in
          let left : 0 < len = ground arith in
          rw more (
            write_loop_lem fuel (send_all send_byte d chunk) (off + length chunk)
              (len - length chunk) (omega (arith, length-chunk copy_in bytes user off n))
              (omega (arith, length-chunk copy_in bytes user off n))
            ∙ ap (λ (t : Block). done (length bytes, t))
                (sym (send_all-append d chunk (drop (off + length chunk) bytes))
                  ∙ ap (send_all send_byte d)
                      (chunk-append-rest copy_in bytes user off n (omega arith))))
      | inr over ↦
          let spent : len ≡ 0 = ground arith in
          let at_end : off ≡ length bytes = omega arith in
          rw (over, drop_all off bytes (omega arith), ← at_end) (unfold send_all in refl)
    ]

    pub stuck :
        (fuel : ℕ) (d : Block) (off len : ℕ)
        → off ≤ length bytes
        → length bytes < off + len
        → write_loop send_byte copy_in fuel d off len ≡ running
    unfolding write_loop
    stuck zero d off len p q = refl
    stuck (suc fuel) d off len p q =
        let n : ℕ = min len chunk_size in
        let chunk : List ℕ = copy_in off n in
        ground (
          arith,
          length-chunk copy_in bytes user off n,
          stuck fuel (send_all send_byte d chunk) (off + length chunk) (len - length chunk),
        )
