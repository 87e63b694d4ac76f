-- ===== src/Bytes/PackLayout.antt =====
-- The layout of a pack, which putMessage of utils/bytes.cpp and utils/pack.cpp write.
use naruto.Prelude.{
  ℕ, ◌+◌, ◌^◌, ◌<◌, ◌≡◌, refl, sym, ap, ap₂, ◌∙◌, List, ◌++◌, length, length-append, append_assoc,
  blit_end, arith,
}
use naruto.Codec.{le_bytes, length-le_bytes}
use naruto.Bytes.{u32, put_message, put_head, put_body}
use naruto.Bytes.Write.{grow-blit}
use naruto.Bytes.Ends.{at_end, at_end-IsValid, append-at_end}

-- A pack as it goes over the wire and into the files: the length of the whole in four bytes, a zero
-- flag in two, the type in two, the body.
abbrev pub pack_bytes : ℕ → List ℕ → List ℕ
pack_bytes type body = (le_bytes 4 (8 + length body) ++ (le_bytes 2 0 ++ le_bytes 2 type)) ++ body

pub put_head-at_end :
    (n type : ℕ) (xs : List ℕ) (r : ℕ)
    → length xs + 8 + n < 2 ^ 32
    → put_head n type (at_end xs r)
      ≡ at_end (xs ++ (le_bytes 4 (8 + n) ++ (le_bytes 2 0 ++ le_bytes 2 type))) r
unfolding put_head
put_head-at_end n type xs r h =
    let four = length-append xs (le_bytes 4 (u32 (8 + n))) in
    let six = length-append (xs ++ le_bytes 4 (u32 (8 + n))) (le_bytes 2 0) in
    let xs' : List ℕ = xs ++ le_bytes 4 (u32 (8 + n)) in
    rw (append-at_end 4 (u32 (8 + n)) xs r (omega arith)) (
      rw (append-at_end 2 0 xs' r (omega (arith, four, length-le_bytes 4 (u32 (8 + n))))) (
        append-at_end 2 type (xs' ++ le_bytes 2 0) r
          (omega (arith, four, six, length-le_bytes 4 (u32 (8 + n)), length-le_bytes 2 0))
        ∙ ap (λ t. at_end t r)
            (append_assoc xs' (le_bytes 2 0) (le_bytes 2 type)
              ∙ append_assoc xs (le_bytes 4 (u32 (8 + n))) (le_bytes 2 0 ++ le_bytes 2 type)
              ∙ ap (λ m. xs ++ (le_bytes 4 m ++ (le_bytes 2 0 ++ le_bytes 2 type))) (omega arith))))

put_body-at_end :
    (body xs : List ℕ) (r : ℕ)
    → length xs + length body < 2 ^ 32
    → put_body body (at_end xs r) ≡ at_end (xs ++ body) r
unfolding put_body
put_body-at_end body xs r h =
    let e : u32 (length xs + u32 (length body)) ≡ length xs + length body = omega arith in
    ap₂ (λ (c : List ℕ) (n : ℕ). record { buf = c; rpos = r; wpos = n })
      (grow-blit (at_end xs r) body _ (at_end-IsValid xs r (omega arith)) h (omega arith)
        ∙ blit_end xs body)
      (e ∙ sym (length-append xs body))

pub length-head : (n type : ℕ) → length (le_bytes 4 n ++ (le_bytes 2 0 ++ le_bytes 2 type)) ≡ 8
unfolding le_bytes
length-head n type = refl

pub length-pack_bytes : (type : ℕ) (body : List ℕ) → length (pack_bytes type body) ≡ 8 + length body
length-pack_bytes type body =
    length-append (le_bytes 4 (8 + length body) ++ (le_bytes 2 0 ++ le_bytes 2 type)) body
    ∙ ap (λ n. n + length body) (length-head (8 + length body) type)

-- putMessage at the end of a buffer adds exactly one pack, and leaves the reader where it is.
pub put_message-at_end :
    (body xs : List ℕ) (type r : ℕ)
    → length xs + 8 + length body < 2 ^ 32
    → put_message body type (at_end xs r) ≡ at_end (xs ++ pack_bytes type body) r
unfolding put_message
put_message-at_end body xs type r h =
    let head : List ℕ = le_bytes 4 (8 + length body) ++ (le_bytes 2 0 ++ le_bytes 2 type) in
    let n : u32 (length body) ≡ length body = omega arith in
    ap (λ k. put_body body (put_head k type (at_end xs r))) n
    ∙ ap (put_body body) (put_head-at_end (length body) type xs r h)
    ∙ put_body-at_end body (xs ++ head) r
        (omega (arith, length-append xs head, length-head (8 + length body) type))
    ∙ ap (λ t. at_end t r) (append_assoc xs head body)
