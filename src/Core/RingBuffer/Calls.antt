-- ===== src/Core/RingBuffer/Calls.antt =====
-- Calls of `push` and `pop` step by step: alone they are the calls of `RingBuffer`; two producers may lose an
-- element.
use ultra_low_latency_hft_en.Prelude.{
  ℕ, suc, ◌<◌, ◌≡◌, refl, ◌∙◌, true, false, List, [], ◌∷◌, ◌++◌, inl, inr, Bool-cases, length, ◌==◌,
  arith, length-set, set,
}
use ultra_low_latency_hft_en.Core.RingBuffer.{RingBuffer, next, push, pop}
use ultra_low_latency_hft_en.Core.RingBuffer.Refines.{
  Represents, distance_full, next_lt, Holds-length, Holds-set,
}
use ultra_low_latency_hft_en.Core.RingBuffer.Races.{Holds-write}
use ultra_low_latency_hft_en.Core.RingBuffer.Threads.{PushCall, PopCall, push_step, pop_step}

module _ {ℓ} {T : Type ℓ} (size : ℕ) where
  -- four steps of a call, with none of another thread between them
  unfoldable push_alone : PushCall T → RingBuffer T → PushCall T × RingBuffer T
  push_alone p r =
      let (p₁, r₁) = push_step size p r in
      let (p₂, r₂) = push_step size p₁ r₁ in
      let (p₃, r₃) = push_step size p₂ r₂ in push_step size p₃ r₃

  unfoldable pop_alone : PopCall T → RingBuffer T → PopCall T × RingBuffer T
  pop_alone c r =
      let (c₁, r₁) = pop_step size c r in
      let (c₂, r₂) = pop_step size c₁ r₁ in
      let (c₃, r₃) = pop_step size c₂ r₂ in pop_step size c₃ r₃

  -- A call of `push` or `pop` whose steps no other thread interrupts returns what `push` and `pop`
  -- return, and leaves the buffer that they leave.
  undisturbed_calls :
      (item : T) (r : RingBuffer T)
      → (push_alone (PushCall.called item) r
          ≡ (PushCall.pushed (push size item r).0, (push size item r).1))
        × (pop_alone PopCall.called r ≡ (PopCall.popped (pop size r).0, (pop size r).1))
  unfolding push_alone pop_alone push_step pop_step push pop
  undisturbed_calls item r = (
    elim (Bool-cases (next size r.head == r.tail)) [ inl e ↦ rw e refl | inr e ↦ rw e refl ],
    elim (Bool-cases (r.tail == r.head)) [ inl e ↦ rw e refl | inr e ↦ rw e refl ],
  )

  -- Two calls of `push` in two threads, whose steps alternate.
  unfoldable pub push_both : T → T → RingBuffer T → (PushCall T × PushCall T) × RingBuffer T
  push_both x y r =
      let (p₁, r₁) = push_step size (PushCall.called x) r in
      let (q₁, s₁) = push_step size (PushCall.called y) r₁ in
      let (p₂, r₂) = push_step size p₁ s₁ in
      let (q₂, s₂) = push_step size q₁ r₂ in
      let (p₃, r₃) = push_step size p₂ s₂ in
      let (q₃, s₃) = push_step size q₂ r₃ in
      let (p₄, r₄) = push_step size p₃ s₃ in let (q₄, s₄) = push_step size q₃ r₄ in ((p₄, q₄), s₄)

  -- With two producers an element can be lost: if the steps of two calls of `push` alternate while
  -- there is room, both return true, but only the second element is in the queue afterwards.
  pub two_producers_lose_element :
      (x y : T) (r : RingBuffer T) (q : List T)
      → Represents size r q
      → suc (length q) < size
      → ((push_both x y r).0 ≡ (PushCall.pushed true, PushCall.pushed true))
        × Represents size (push_both x y r).1 (q ++ y ∷ [])
  unfolding push_both push_step
  two_producers_lose_element x y r q v room =
      let count = Holds-length size v.small r.buffer r.head r.tail q v.head_in v.tail_in v.held in
      let full = distance_full size v.small r.head r.tail v.head_in v.tail_in in
      let free : (next size r.head == r.tail) ≡ false = ground arith in
      let len : length (set r.buffer r.head x) ≡ size = length-set r.buffer r.head x ∙ v.slots in
      rw free (
        refl,
        record {
          small = v.small;
          slots = length-set (set r.buffer r.head x) r.head y ∙ len;
          head_in = next_lt size v.small r.head v.head_in;
          tail_in = v.tail_in;
          held =
              Holds-set size v.small (set r.buffer r.head x) r.head r.tail y q len v.head_in
                v.tail_in (ground arith)
                (Holds-write size v.small r.buffer r.head r.tail x q v.held);
        },
      )
