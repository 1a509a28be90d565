-- ===== src/Core/RingBuffer/Delivery.antt =====
-- One producer and one consumer never lose, repeat or reorder an element, however their steps
-- interleave.
use ultra_low_latency_hft_en.Prelude.{
  ℕ, ◌^◌, ◌<◌, ◌≡◌, ◌≢◌, refl, sym, ◌∙◌, ap, Option, some, List, [], ◌∷◌, ◌++◌, inl, inr,
  Bool-cases, length, ◌==◌, arith, append_assoc, get_elem?,
}
use ultra_low_latency_hft_en.Core.RingBuffer.{RingBuffer}
use ultra_low_latency_hft_en.Core.RingBuffer.Refines.{
  Holds, nothing, slot, Represents, next_lt, Holds-length, init-Represents,
}
use ultra_low_latency_hft_en.Core.RingBuffer.Threads.{
  PushCall, PopCall, Threads, Move, pop_step, sends, receives, start_push, start_pop, move, run,
  started,
}
use ultra_low_latency_hft_en.Core.RingBuffer.Races.{
  PushKnows, PopKnows, called, loaded, pushed, reading, releasing, popped, push_step_sound,
  PushKnows-release,
}

module _ {ℓ} {T : Type ℓ} (size : ℕ) where
  -- What one step of the consumer leaves of the queue `q`, and what is known afterwards.
  record Taken (c : PopCall T) (r : RingBuffer T) (p : PushCall T) (q : List T) : Type ℓ where
    rest : List T
    order : q ≡ receives c ++ rest
    represents : Represents size (pop_step size c r).1 rest
    push_knows : PushKnows size (pop_step size c r).1 p
    pop_knows : PopKnows (pop_step size c r).1 (pop_step size c r).0

  release :
      (t : ℕ) (o : Option T) (r : RingBuffer T) (p : PushCall T) (q : List T)
      → Represents size r q
      → PushKnows size r p
      → t ≡ r.tail
      → t ≢ r.head
      → get_elem? r.buffer t ≡ o
      → Holds size r.buffer r.head r.tail q
      → Taken (PopCall.releasing t o) r p q
  unfolding pop_step receives
  release t o r p [] v k e ne g (nothing e') = absurd (ne (e ∙ e'))
  release t o r p (x ∷ q) v k e ne g (slot ne' g' rest) =
      let item : o ≡ some x = sym g ∙ ap (get_elem? r.buffer) e ∙ g' in
      record {
        rest = q;
        order = rw item refl;
        represents = rw e (record {
          small = v.small;
          slots = v.slots;
          head_in = v.head_in;
          tail_in = next_lt size v.small r.tail v.tail_in;
          held = rest;
        });
        push_knows = rw e (PushKnows-release size r p v.small v.head_in v.tail_in ne' k);
        pop_knows = popped;
      }

  pop_step_sound :
      (c : PopCall T) (r : RingBuffer T) (p : PushCall T) (q : List T)
      → Represents size r q
      → PushKnows size r p
      → PopKnows r c
      → Taken c r p q
  unfolding pop_step receives
  pop_step_sound PopCall.called r p q v k called = record {
    rest = q;
    order = refl;
    represents = v;
    push_knows = k;
    pop_knows = loaded refl;
  }
  pop_step_sound (PopCall.loaded t) r p q v k (loaded e) = elim (Bool-cases (t == r.head)) [
    | inl f ↦ record {
      rest = q;
      order = refl;
      represents = v;
      push_knows = k;
      pop_knows = rw f popped;
    }
    | inr f ↦ record {
      rest = q;
      order = refl;
      represents = v;
      push_knows = k;
      pop_knows = rw f (reading e (ground arith));
    }
  ]
  pop_step_sound (PopCall.reading t) r p q v k (reading e ne) = record {
    rest = q;
    order = refl;
    represents = v;
    push_knows = k;
    pop_knows = releasing e ne refl;
  }
  pop_step_sound (PopCall.releasing t o) r p q v k (releasing e ne g) =
      release t o r p q v k e ne g v.held
  pop_step_sound (PopCall.popped o) r p q v k popped = record {
    rest = q;
    order = refl;
    represents = v;
    push_knows = k;
    pop_knows = popped;
  }

  -- The threads have delivered all that was sent but `q`, which waits in the buffer.
  record IsSound (w : Threads T) (q : List T) : Type ℓ where
    represents : Represents size w.ring q
    order : w.sent ≡ w.received ++ q
    push_knows : PushKnows size w.ring w.producer
    pop_knows : PopKnows w.ring w.consumer

  start_push-PushKnows :
      (x : T) (r : RingBuffer T) (p : PushCall T)
      → PushKnows size r p
      → PushKnows size r (start_push x p)
  unfolding start_push
  start_push-PushKnows x r (PushCall.called y) k = k
  start_push-PushKnows x r (PushCall.loaded y h) k = k
  start_push-PushKnows x r (PushCall.storing y h) k = k
  start_push-PushKnows x r (PushCall.publishing y h) k = k
  start_push-PushKnows x r (PushCall.pushed b) k = called

  start_pop-PopKnows : (r : RingBuffer T) (c : PopCall T) → PopKnows r c → PopKnows r (start_pop c)
  unfolding start_pop
  start_pop-PopKnows r PopCall.called k = k
  start_pop-PopKnows r (PopCall.loaded t) k = k
  start_pop-PopKnows r (PopCall.reading t) k = k
  start_pop-PopKnows r (PopCall.releasing t o) k = k
  start_pop-PopKnows r (PopCall.popped o) k = called

  move-IsSound :
      (m : Move T) (w : Threads T) (q : List T)
      → IsSound w q
      → (q' : List T) × IsSound (move size m w) q'
  unfolding move
  move-IsSound (Move.offer x) w q i = (
    q,
    record {
      represents = i.represents;
      order = i.order;
      push_knows = start_push-PushKnows x w.ring w.producer i.push_knows;
      pop_knows = i.pop_knows;
    },
  )
  move-IsSound Move.produce w q i =
      let (v, k, m) =
        push_step_sound size w.producer w.ring w.consumer q i.represents i.push_knows i.pop_knows in
      (
        q ++ sends w.producer,
        record {
          represents = v;
          order =
              ap (λ l. l ++ sends w.producer) i.order
              ∙ append_assoc w.received q (sends w.producer);
          push_knows = k;
          pop_knows = m;
        },
      )
  move-IsSound Move.ask w q i = (
    q,
    record {
      represents = i.represents;
      order = i.order;
      push_knows = i.push_knows;
      pop_knows = start_pop-PopKnows w.ring w.consumer i.pop_knows;
    },
  )
  move-IsSound Move.consume w q i =
      let taken =
        pop_step_sound w.consumer w.ring w.producer q i.represents i.push_knows i.pop_knows in
      (
        taken.rest,
        record {
          represents = taken.represents;
          order =
              i.order
              ∙ ap (λ l. w.received ++ l) taken.order
              ∙ sym (append_assoc w.received (receives w.consumer) taken.rest);
          push_knows = taken.push_knows;
          pop_knows = taken.pop_knows;
        },
      )

  run-IsSound :
      (moves : List (Move T)) (w : Threads T) (q : List T)
      → IsSound w q
      → (q' : List T) × IsSound (run size moves w) q'
  unfolding run
  run-IsSound [] w q i = (q, i)
  run-IsSound (m ∷ moves) w q i =
      let (q', i') = move-IsSound m w q i in run-IsSound moves (move size m w) q' i'

  -- Let one thread push and another pop on a new buffer of `size` slots, their loads, stores and
  -- accesses of slots interleaving in any order. At any time what was received, followed by the
  -- queue that the buffer stores, is what was sent: nothing is lost, repeated or reordered. At most
  -- `size - 1` wait.
  pub threads_deliver_in_order :
      (moves : List (Move T)) (blank : T)
      → 0 < size
      → size < 2 ^ 64
      → let w = run size moves (started size blank) in
        (q : List T) × (w.sent ≡ w.received ++ q) × Represents size w.ring q × (length q < size)
  unfolding started
  threads_deliver_in_order moves blank h small =
      let start : IsSound (started size blank) [] = record {
        represents = init-Represents size blank h small;
        order = refl;
        push_knows = pushed;
        pop_knows = popped;
      } in
      let (q, i) = run-IsSound moves (started size blank) [] start in
      let v = i.represents in
      let r = (run size moves (started size blank)).ring in
      let count = Holds-length size small r.buffer r.head r.tail q v.head_in v.tail_in v.held in
      (q, i.order, v, ground arith)
