-- ===== src/Protocol/Fields/Size.antt =====
-- What fields_size computes for a message.
use librtaio.Base.{
  ℕ, suc, ◌+◌, ◌-◌, ◌^◌, ◌≤◌, ◌<◌, ◌≡◌, refl, ◌∙◌, true, false, List, [], ◌∷◌, ◌++◌, none, some,
  length, ◌==◌, if◌then◌else◌, done, arith, ne→eq, lt→leb,
}
use librtaio.Protocol.Field.{
  Field, type_long, type_longlong, is_field, field_hcrc, field_bmark, field_next, scalar, body_mark,
  msg_tail, to_int, end_field,
}
use librtaio.Protocol.Fields.{Sizes, field_size, size_loop, fields_size}
use librtaio.Protocol.Wire.{Header, message}

-- Fields that take `n` bytes, behind the field `prev`.
pub data Sized (cnt : ℕ) : Field → List Field → ℕ → Type 0 where
  end : {prev : Field} → Sized cnt prev [] 0
  next :
      {prev p : Field} {ps : List Field} {k n : ℕ}
      → is_field p.type ≡ true
      → field_size cnt (some prev) p ≡ done k
      → Sized cnt p ps n
      → Sized cnt prev (p ∷ ps) (k + n)

-- What the loop has added up before field `n` of the body.
abbrev sums : ℕ → ℕ → ℕ → Sizes
sums total body body_count = record {
  total = total;
  header = 32;
  body = body;
  body_count = body_count;
}

module _ (cnt : ℕ) where
  size-step :
      (n k total body : ℕ) (prev p : Field) (ps : List Field) (body_count : ℕ)
      → is_field p.type ≡ true
      → field_size cnt (some prev) p ≡ done k
      → field_bmark ≤ n
      → total + k < 2 ^ 32
      → body ≤ total
      → size_loop cnt n (some prev) (p ∷ ps) (sums total body body_count)
        ≡ size_loop cnt
            (suc n)
            (some p)
            ps
            (sums (total + k) (body + k) (if n == field_next then n else body_count))
  unfolding size_loop
  size-step n k total body prev p ps body_count f e late fits less =
      let total_fits : to_int (total + k) ≡ total + k = omega arith in
      let body_fits : to_int (body + k) ≡ body + k = omega arith in
      rw (f, size_loop, e, lt→leb n field_hcrc late, total_fits, body_fits)

  -- Behind field 8 the number of the first field of the body does not change any more.
  size_rest :
      (n total body k : ℕ) {prev : Field} {ps : List Field}
      → Sized cnt prev ps k
      → field_next < n
      → total + k + 8 < 2 ^ 32
      → body ≤ total
      → size_loop cnt n (some prev) (ps ++ msg_tail) (sums total body field_next)
        ≡ done (n + length ps + 1, sums (total + k + 8) (body + k + 8) field_next)
  unfolding msg_tail size_loop field_size
  size_rest n total body k {prev} end late fits less =
      let later : (n == field_next) ≡ false = ne→eq n field_next (λ e. absurd (omega arith)) in
      let next_n : suc n ≡ n + 0 + 1 = omega arith in
      let all : total + 8 ≡ total + 0 + 8 = omega arith in
      let of_body : body + 8 ≡ body + 0 + 8 = omega arith in
      size-step n 8 total body prev (scalar type_longlong 0 "bcrc") (end_field ∷ []) field_next refl
        refl (omega arith) (omega arith) less
      ∙ rw (later, next_n, all, of_body)
  size_rest n total body k' {prev} (next {p} {ps} {k} {n = rest} f e sized) late fits less =
      let later : (n == field_next) ≡ false = ne→eq n field_next (λ e. absurd (omega arith)) in
      let next_n : suc n + length ps + 1 ≡ n + suc (length ps) + 1 = omega arith in
      let all : total + k + rest + 8 ≡ total + (k + rest) + 8 = omega arith in
      let of_body : body + k + rest + 8 ≡ body + (k + rest) + 8 = omega arith in
      size-step n k total body prev p (ps ++ msg_tail) field_next f e (omega arith) (omega arith)
        less
      ∙ rw (
        later,
        size_rest (suc n) (total + k) (body + k) rest sized (omega arith) (omega arith)
            (omega arith),
        next_n,
        all,
        of_body,
      )

module _ (m : Header) (hcrc : ℕ) where
  abbrev pub message_size : ℕ → ℕ → Sizes
  message_size fields k = record {
    total = k + 44;
    header = 32;
    body = k + 12;
    body_count = fields + 2;
  }

  header_size :
      (cnt : ℕ) (rest : List Field)
      → size_loop cnt 0 none
          (message m hcrc rest)
          (record { total = 0; header = 0; body = 0; body_count = 0 })
        ≡ size_loop cnt 8 (some (scalar type_long body_mark "bmark")) rest (sums 36 4 0)
  unfolding size_loop field_size
  header_size cnt rest = refl

  fields_size-some :
      (p : Field) (ps : List Field) (k : ℕ)
      → Sized (to_int m.count) (scalar type_long body_mark "bmark") (p ∷ ps) k
      → k + 44 < 2 ^ 31
      → length ps + 20 < 2 ^ 31
      → fields_size (message m hcrc ((p ∷ ps) ++ msg_tail)) 0
        ≡ done (message_size (length (p ∷ ps)) k)
  unfolding fields_size
  fields_size-some p ps k' (next {k} {n} f e sized) fits few =
      let cnt = to_int m.count in
      let first = scalar type_long body_mark "bmark" in
      let all : 36 + k + n + 8 ≡ k + n + 44 = omega arith in
      let of_body : 4 + k + n + 8 ≡ k + n + 12 = omega arith in
      let fields : to_int (9 + length ps + 1 + 2 ^ 32 - 8 + 1) ≡ suc (length ps) + 2 =
        omega arith in
      rw (
        header_size cnt ((p ∷ ps) ++ msg_tail),
        size-step cnt 8 k 36 4 first p (ps ++ msg_tail) 0 f e (omega arith) (omega arith)
            (omega arith),
        size_rest cnt 9 (36 + k) (4 + k) n sized (omega arith) (omega arith) (omega arith),
        all,
        of_body,
        fields,
      )

  fields_size-none : fields_size (message m hcrc msg_tail) 0 ≡ done (message_size 0 0)
  unfolding fields_size size_loop field_size msg_tail
  fields_size-none = refl

  -- A message whose own fields take `k` bytes (Sized), where `k` and the number of fields are
  -- below 2^31 with some room: fields_size gives `k + 44` in total, 32 for the header, `k + 12`
  -- for the body, and the number of its own fields and two as the body's count.
  pub fields_size_lem :
      (ps : List Field) (k : ℕ)
      → Sized (to_int m.count) (scalar type_long body_mark "bmark") ps k
      → k + 44 < 2 ^ 31
      → length ps + 20 < 2 ^ 31
      → fields_size (message m hcrc (ps ++ msg_tail)) 0 ≡ done (message_size (length ps) k)
  fields_size_lem [] k end fits few = fields_size-none
  fields_size_lem (p ∷ ps) k sized fits few = fields_size-some p ps k sized fits (omega arith)
