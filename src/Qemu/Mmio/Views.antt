-- ===== src/Qemu/Mmio/Views.antt =====
-- The buffers of the block of week03/mmio.c, up to where their bytes stand: the type of these views
-- is that of the queues of at most 31 bytes.
use mathlib.Core.Equiv.{iso_to_equiv, ◌≃◌}
use mathlib.Core.List.{is_set}
use mathlib.Core.Quot
use mathlib.Core.Quot.{Quot, Quot-set}
use native.Mathlib.Nat.{ℕ_set}
use device_driver_on_so_c.Prelude.{
  ℕ, ◌≤◌, ◌<◌, ◌≡◌, ◌⊎◌, refl, sym, ap, ◌∙◌, arith, true, false, inl, inr, List, [], ◌∷◌, ◌++◌,
  get_or, drop, u8, Bool-cases,
}
use device_driver_on_so_c.Qemu.Fifo.{is_empty}
use device_driver_on_so_c.Qemu.Fifo.Contents as Fifo_contents
use device_driver_on_so_c.Qemu.Fifo.Contents.{used, contents, length-contents}
use device_driver_on_so_c.Qemu.Fifo.Views.{Ring, View, Queue, view_iso}
use device_driver_on_so_c.Qemu.Mmio.{put_byte, take_byte}
use device_driver_on_so_c.Qemu.Mmio.Inv.{put_byte-IsValid, contents-put_byte, take_byte-IsValid}
use device_driver_on_so_c.Qemu.Pipe.{push, push-full, push-nil, push-cons}

contents-put_byte-push :
    (f : Ring) (x : ℕ) → contents (put_byte f.0 x) ≡ push (contents f.0) (x ∷ [])
contents-put_byte-push f x = elim (full_or_room (used f.0)) [
  | inl full ↦
      (contents-put_byte f.1 x).1 (omega arith)
      ∙ sym (push-full (contents f.0) (x ∷ []) (omega (arith, length-contents f.0)))
  | inr room ↦
      (contents-put_byte f.1 x).0 room
      ∙ sym (
          push-cons (contents f.0) x [] (omega (arith, length-contents f.0))
          ∙ push-nil (contents f.0 ++ (u8 x ∷ [])))
]
  where
    full_or_room : (n : ℕ) → (31 ≤ n) ⊎ (n < 31)
    full_or_room n = ground arith

take_byte-contents :
    (f : Ring)
    → ((take_byte f.0).0 ≡ get_or (contents f.0) 0 0)
      × (contents (take_byte f.0).1 ≡ drop 1 (contents f.0))
unfolding take_byte
take_byte-contents f = elim (Bool-cases (is_empty f.0)) [
  | inl e ↦
      let nothing = Fifo_contents.contents_of_unused f.0 (unused e) in rw (e, nothing) (refl, refl)
  | inr e ↦ rw (e, Fifo_contents.contents-dequeue f.1 (in_use e)) (refl, refl)
]
  where
    unused : is_empty f.0 ≡ true → used f.0 ≡ 0
    unused e = ground (arith, Fifo_contents.is_empty-used f.1)

    in_use : is_empty f.0 ≡ false → 0 < used f.0
    in_use e = ground (arith, Fifo_contents.is_empty-used f.1)

-- The two operations of the block on a view
pub put_view : ℕ → View → View
put_view x =
    Quot.lift Quot-set (λ f. Quot.mk (put_byte f.0 x, put_byte-IsValid f.1 x))
      (λ f g h. Quot.sound (
        contents-put_byte-push f x
        ∙ ap (λ (l : List ℕ). push l (x ∷ [])) h
        ∙ sym (contents-put_byte-push g x)))

pub oldest : View → ℕ
oldest =
    Quot.lift ℕ_set (λ f. (take_byte f.0).0)
      (λ f g h.
        (take_byte-contents f).0
        ∙ ap (λ (l : List ℕ). get_or l 0 0) h
        ∙ sym (take_byte-contents g).0)

pub rest : View → View
rest =
    Quot.lift Quot-set (λ f. Quot.mk ((take_byte f.0).1, take_byte-IsValid f.1))
      (λ f g h.
        Quot.sound (
          (take_byte-contents f).1
          ∙ ap (λ (l : List ℕ). drop 1 l) h
          ∙ sym (take_byte-contents g).1))

-- The valid rings of struct fifo, taken up to having the same bytes in them, are exactly the queues
-- of at most 31 bytes: an equivalence under which a guarded enqueue appends the byte if it fits,
-- and a guarded dequeue gives the oldest byte, 0 if there is none, and drops it.
pub View-Queue :
    (e : View ≃ Queue) × ((x : ℕ) (v : View) → (e.0 (put_view x v)).0 ≡ push (e.0 v).0 (x ∷ []))
    × ((v : View) → oldest v ≡ get_or (e.0 v).0 0 0)
    × ((v : View) → (e.0 (rest v)).0 ≡ drop 1 (e.0 v).0)
unfolding view_iso put_view oldest rest
View-Queue = (
  iso_to_equiv view_iso,
  λ x. Quot.ind (λ v. is_set ℕ_set _ _) (λ f. contents-put_byte-push f x),
  Quot.ind (λ v. ℕ_set _ _) (λ f. (take_byte-contents f).0),
  Quot.ind (λ v. is_set ℕ_set _ _) (λ f. (take_byte-contents f).1),
)
