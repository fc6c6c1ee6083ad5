-- ===== src/Protocol/Fields.antt =====
-- src/protocol/packet_protocol.cpp: copy_fields and fields_size.
pub mod Size
pub mod Copy
use librtaio.Base.{
  ℕ, suc, ◌+◌, ◌-◌, ◌*◌, ◌^◌, Bool, true, false, List, [], ◌∷◌, ◌&&◌, not, Option, none, some,
  length, set, get_elem?, ltb, leb, ◌==◌, if◌then◌else◌, Outcome, done, fault, access, ◌>>=◌,
}
use librtaio.Protocol.Field.{
  Field, FieldType, type_char, type_byte, type_short, type_long, type_longlong, type_float,
  type_double, type_unknown, type_end, is_field, field_hcrc, field_bmark, field_next, field_count,
  to_int, is_negative, minus_one,
}

-- `p->type > 0`, the test of copy_fields.
abbrev pub is_copied : FieldType → Bool
is_copied type_char = false
is_copied type_end = false
is_copied type_byte = true
is_copied type_short = true
is_copied type_long = true
is_copied type_longlong = true
is_copied type_float = true
is_copied type_double = true
is_copied type_unknown = true

-- `dest[n] = p`.
abbrev pub store_field : List Field → ℕ → Field → Outcome (List Field)
store_field dest n p = if ltb n (length dest) then done (set dest n p) else fault

-- The loop of copy_fields, from source field `n` on: the final `n` and `dest`.
unfoldable pub copy_loop : Bool → ℕ → List Field → List Field → Outcome (ℕ × List Field)
copy_loop only_header n dest [] = fault
copy_loop only_header n dest (p ∷ ps) = elim (is_copied p.type) [
  | false ↦ done (n, dest)
  | true ↦ store_field dest n p >>= λ dest'. elim (only_header && n + 1 == field_bmark) [
    | true ↦ done (n, dest')
    | false ↦ copy_loop only_header (suc n) dest' ps
  ]
]

-- What follows the loop: unless `only_header`, the type that ends an array.
abbrev pub end_copy : Bool → ℕ × List Field → Outcome (ℕ × List Field)
end_copy true (n, dest) = done (n, dest)
end_copy false (n, dest) =
    access (get_elem? dest n) >>= λ p. done (n, set dest n (record p { type = type_end }))

unfoldable pub copy_fields : List Field → List Field → Bool → Outcome (ℕ × List Field)
copy_fields dest src only_header = copy_loop only_header 0 dest src >>= end_copy only_header

-- The switch: bytes of one element.
unfoldable pub type_size : FieldType → ℕ
type_size type_char = 1
type_size type_byte = 1
type_size type_short = 2
type_size type_long = 4
type_size type_longlong = 8
type_size type_float = 4
type_size type_double = 8
type_size type_unknown = 0
type_size type_end = 0

-- The bytes of one field, an `int`.
unfoldable pub field_size : ℕ → Option Field → Field → Outcome ℕ
unfolding type_size
field_size cnt prev p =
    let size = type_size p.type in
    elim p.memory [
      | none ↦ done size
      | some _ ↦
          if not (is_negative p.count)
          then done (to_int (size * (p.count * cnt)))
          else if p.count == minus_one
          then (access prev >>= λ q. elim q.memory [
            | none ↦ done (to_int (size * q.ivalue))
            | some _ ↦ done size
          ])
          else done size
    ]

pub record Sizes : Type 0 where
  pub total : ℕ
  pub header : ℕ
  pub body : ℕ
  pub body_count : ℕ

-- The loop of fields_size, from field `n` on, with what is summed up so far.
unfoldable pub size_loop : ℕ → ℕ → Option Field → List Field → Sizes → Outcome (ℕ × Sizes)
size_loop cnt n prev [] z = fault
size_loop cnt n prev (p ∷ ps) z = elim (is_field p.type) [
  | false ↦ done (n, z)
  | true ↦ field_size cnt prev p >>= λ size. size_loop cnt (suc n) (some p) ps (record {
    total = to_int (z.total + size);
    header = if leb n field_hcrc then to_int (z.header + size) else z.header;
    body = if leb n field_hcrc then z.body else to_int (z.body + size);
    body_count = if n == field_next then n else z.body_count;
  })
]

-- All four results; a caller that passes a null pointer ignores one. `body_count` is the value
-- behind that pointer before the call.
unfoldable pub fields_size : List Field → ℕ → Outcome Sizes
fields_size fields body_count = access (get_elem? fields field_count) >>= λ count.
    size_loop (to_int count.ivalue) 0 none fields
      (record { total = 0; header = 0; body = 0; body_count = body_count })
    >>= λ r.
        let z = r.1 in done (record z { body_count = to_int (r.0 + 2 ^ 32 - z.body_count + 1) })
