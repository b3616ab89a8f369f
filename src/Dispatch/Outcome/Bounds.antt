-- ===== src/Dispatch/Outcome/Bounds.antt =====
-- Bounds and choice in intermediate-proxy/src/dispatch/mod.rs: the buffered failures and the failure
-- that is answered with.
use proxy_systems.Common.{
  ℕ, zero, suc, ◌+◌, ◌-◌, ◌≤◌, ◌≡◌, refl, inl, inr, false, List, [], ◌∷◌, ◌++◌, arith, leb, ◌==◌,
  length, length-append, length-take, take, Bool-cases, ◌∙◌, ap, sym, take_all, append-nil,
  append_assoc, ==_iff, leb→le,
}
use proxy_systems.Http.{Bytes, Chunk, got, broken}
use proxy_systems.Dispatch.Outcome.{failed_body_cap, buffer_chunks}

-- The bytes of a stream up to its end or its first error.
unfoldable pub stream_bytes : List Chunk → Bytes
stream_bytes [] = []
stream_bytes (broken reason ∷ more) = []
stream_bytes (got b ∷ more) = b ++ stream_bytes more

-- A failure never buffers more than its cap.
pub buffer_chunks-length :
    (buf : Bytes) (chunks : List Chunk)
    → length buf ≤ failed_body_cap
    → length (buffer_chunks buf chunks) ≤ failed_body_cap
unfolding buffer_chunks
buffer_chunks-length buf [] h = h
buffer_chunks-length buf (broken reason ∷ more) h = h
buffer_chunks-length buf (got b ∷ more) h = ground (
  arith,
  buffer_chunks-length (buf ++ b) more,
  length-append buf b,
  length-append buf (take (failed_body_cap - length buf) b),
  length-take (failed_body_cap - length buf) b,
)

take-append : (n : ℕ) (xs ys : Bytes) → n ≤ length xs → take n (xs ++ ys) ≡ take n xs
take-append zero xs ys h = refl
take-append (suc n) [] ys h = absurd (omega arith)
take-append (suc n) (x ∷ xs) ys h = ground (arith, take-append n xs ys)

take-append_more :
    (xs ys : Bytes) (n m : ℕ) → length xs + m ≡ n → take n (xs ++ ys) ≡ xs ++ take m ys
take-append_more [] ys n m e = ap (λ (k : ℕ). take k ys) (omega arith)
take-append_more (x ∷ xs) ys zero m e = absurd (omega arith)
take-append_more (x ∷ xs) ys (suc n) m e = ap (◌∷◌ x) (take-append_more xs ys n m (omega arith))

leb_false→le : (a b : ℕ) → leb a b ≡ false → b ≤ a
leb_false→le a b h = ground arith

-- Where no more than the cap is buffered already, the buffered body of a failure is the front, up
-- to the cap, of the buffer with what the stream gives before it ends or breaks.
pub buffer_chunks-take :
    (buf : Bytes) (chunks : List Chunk)
    → length buf ≤ failed_body_cap
    → buffer_chunks buf chunks ≡ take failed_body_cap (buf ++ stream_bytes chunks)
unfolding buffer_chunks stream_bytes
buffer_chunks-take buf [] h = rw append-nil (sym (take_all failed_body_cap buf h))
buffer_chunks-take buf (broken reason ∷ more) h =
    rw append-nil (sym (take_all failed_body_cap buf h))
buffer_chunks-take buf (got b ∷ more) h =
    let room = failed_body_cap - length buf in
    let front = take-append_more buf (b ++ stream_bytes more) failed_body_cap room (omega arith) in
    elim (Bool-cases (room == 0)) [
      | inl full ↦ rw full (
          sym (
            front
            ∙ ap (λ (n : ℕ). buf ++ take n (b ++ stream_bytes more)) ((==_iff room 0).0 full)
            ∙ append-nil buf))
      | inr some_room ↦ elim (Bool-cases (leb (length b) room)) [
        | inl fits ↦
            rw (some_room, fits)
              (buffer_chunks-take (buf ++ b) more
                  (omega (arith, length-append buf b, leb→le (length b) room fits))
                ∙ ap (take failed_body_cap) (append_assoc buf b (stream_bytes more)))
        | inr long ↦
            rw (some_room, long)
              (sym (
                front
                ∙ ap (◌++◌ buf)
                    (take-append room b (stream_bytes more) (leb_false→le (length b) room long))))
      ]
    ]
