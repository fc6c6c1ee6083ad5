-- ===== src/Protocol/Fields/Copy.antt =====
-- What copy_fields copies.
use librtaio.Base.{
  ℕ, suc, ◌+◌, ◌≡◌, refl, ap, subst, ◌∙◌, Bool, true, false, List, [], ◌∷◌, ◌++◌, length,
  length-append, All, ◌==◌, lt→ltb, done, ◌&&◌, arith, append_assoc, set-length-append,
  get_elem?-length-append,
}
use librtaio.Protocol.Field.{Field, type_end, type_long, type_longlong, scalar, field_bmark}
use librtaio.Protocol.Fields.{is_copied, store_field, copy_loop, end_copy, copy_fields}
use librtaio.Protocol.Wire.{Header, header_fields}

abbrev pub IsCopied : Field → Type 0
IsCopied p = is_copied p.type ≡ true

module _ (p : Field) (ps : List Field) where
  copy-stop :
      (only_header : Bool) (n : ℕ) (dest : List Field)
      → is_copied p.type ≡ false
      → copy_loop only_header n dest (p ∷ ps) ≡ done (n, dest)
  unfolding copy_loop
  copy-stop only_header n dest e = rw (e, copy_loop)

store_field-next :
    (done_part rest : List Field) (old p : Field)
    → store_field (done_part ++ (old ∷ rest)) (length done_part) p ≡ done (done_part ++ (p ∷ rest))
store_field-next done_part rest old p = rw (
  lt→ltb (length done_part) (length (done_part ++ (old ∷ rest)))
      (omega (arith, length-append {0} done_part (old ∷ rest))),
  set-length-append done_part rest old p,
)

-- The loop copies field by field up to the first that it does not copy.
copy_loop-IsCopied :
    (ps : List Field) (copied olds rest : List Field) (q : Field) (qs : List Field)
    → All IsCopied ps
    → is_copied q.type ≡ false
    → length olds ≡ length ps
    → copy_loop false (length copied) (copied ++ (olds ++ rest)) (ps ++ (q ∷ qs))
      ≡ done (length copied + length ps, copied ++ (ps ++ rest))
unfolding copy_loop
copy_loop-IsCopied [] copied [] rest q qs c e size =
    let z : length copied ≡ length copied + 0 = omega arith in
    rw (e, copy_loop) (ap (λ k. done (k, copied ++ rest)) z)
copy_loop-IsCopied [] copied (o ∷ olds) rest q qs c e size = absurd (omega arith)
copy_loop-IsCopied (p ∷ ps) copied [] rest q qs c e size = absurd (omega arith)
copy_loop-IsCopied (p ∷ ps) copied (o ∷ olds) rest q qs (c, cs) e size =
    let next : length (copied ++ (p ∷ [])) ≡ suc (length copied) =
      omega (arith, length-append {0} copied (p ∷ [])) in
    let total : suc (length copied) + length ps ≡ length copied + suc (length ps) = omega arith in
    let ih = copy_loop-IsCopied ps (copied ++ (p ∷ [])) olds rest q qs cs e (omega arith) in
    rw (c, copy_loop, store_field-next copied (olds ++ rest) o p)
      (subst
        (λ k.
          copy_loop false k (copied ++ (p ∷ (olds ++ rest))) (ps ++ (q ∷ qs))
          ≡ done (length copied + suc (length ps), copied ++ (p ∷ (ps ++ rest))))
        next
        (subst
          (λ k.
            copy_loop false (length (copied ++ (p ∷ []))) (copied ++ (p ∷ (olds ++ rest)))
              (ps ++ (q ∷ qs))
            ≡ done (k, copied ++ (p ∷ (ps ++ rest))))
          (ap (λ k. k + length ps) next ∙ total)
          (subst
            (λ l.
              copy_loop false (length (copied ++ (p ∷ []))) l (ps ++ (q ∷ qs))
              ≡ done (length (copied ++ (p ∷ [])) + length ps, copied ++ (p ∷ (ps ++ rest))))
            (append_assoc copied (p ∷ []) (olds ++ rest))
            (ih
              ∙ ap (λ l. done (length (copied ++ (p ∷ [])) + length ps, l))
                  (append_assoc copied (p ∷ []) (ps ++ rest))))))

end_copy-marks :
    (ps rest : List Field) (old : Field)
    → end_copy false (length ps, ps ++ (old ∷ rest))
      ≡ done (length ps, ps ++ (record old { type = type_end } ∷ rest))
end_copy-marks ps rest old = rw (
  get_elem?-length-append ps rest old,
  set-length-append ps rest old (record old { type = type_end }),
)

-- Without its flag, copy_fields copies the fields in front of the first of type TYPE_CHAR or of
-- the one that ends the source, into an array with at least one more field, and gives the field
-- behind them the type that ends an array. A source that begins with a TYPE_CHAR copies nothing.
pub copy_fields_full :
    (ps olds rest : List Field) (old q : Field) (qs : List Field)
    → All IsCopied ps
    → is_copied q.type ≡ false
    → length olds ≡ length ps
    → copy_fields (olds ++ (old ∷ rest)) (ps ++ (q ∷ qs)) false
      ≡ done (length ps, ps ++ (record old { type = type_end } ∷ rest))
unfolding copy_fields
copy_fields_full ps olds rest old q qs c e size =
    let zero_first : 0 + length ps ≡ length ps = omega arith in
    let run : copy_loop false 0 (olds ++ (old ∷ rest)) (ps ++ (q ∷ qs))
        ≡ done (length ps, ps ++ (old ∷ rest)) =
      copy_loop-IsCopied ps [] olds (old ∷ rest) q qs c e size
      ∙ ap (λ k. done (k, ps ++ (old ∷ rest))) zero_first in
    rw run (end_copy-marks ps rest old)

copy_step :
    (only_header : Bool) (copied rest : List Field) (old p : Field) (ps : List Field)
    → is_copied p.type ≡ true
    → (only_header && length copied + 1 == field_bmark) ≡ false
    → copy_loop only_header (length copied) (copied ++ (old ∷ rest)) (p ∷ ps)
      ≡ copy_loop only_header (suc (length copied)) (copied ++ (p ∷ rest)) ps
unfolding copy_loop
copy_step only_header copied rest old p ps c more =
    rw (c, copy_loop, store_field-next copied rest old p, more)

copy_last :
    (copied rest : List Field) (old p : Field) (ps : List Field)
    → is_copied p.type ≡ true
    → length copied ≡ 6
    → copy_loop true (length copied) (copied ++ (old ∷ rest)) (p ∷ ps)
      ≡ done (length copied, copied ++ (p ∷ rest))
unfolding copy_loop
copy_last copied rest old p ps c six =
    let last : (length copied + 1 == field_bmark) ≡ true = rw six refl in
    rw (c, copy_loop, store_field-next copied rest old p, last)

-- With its flag, copy_fields copies the seven header fields of any message over the first seven of
-- an array, leaves the rest of it, and returns the index of the last.
pub copy_fields_header :
    (m : Header) (hmark hcrc : ℕ) (src rest : List Field) (o0 o1 o2 o3 o4 o5 o6 : Field)
    → copy_fields (o0 ∷ o1 ∷ o2 ∷ o3 ∷ o4 ∷ o5 ∷ o6 ∷ rest) (header_fields hmark m hcrc src) true
      ≡ done (6, header_fields hmark m hcrc rest)
unfolding copy_fields
copy_fields_header m hmark hcrc src rest o0 o1 o2 o3 o4 o5 o6 =
    let p0 = scalar type_long hmark "hmark" in
    let p1 = scalar type_long m.method "method" in
    let p2 = scalar type_long m.bsize "bsize" in
    let p3 = scalar type_long m.ret "ret" in
    let p4 = scalar type_long m.time "time" in
    let p5 = scalar type_long m.count "count" in
    let p6 = scalar type_longlong hcrc "hcrc" in
    rw (
      copy_step true [] (o1 ∷ o2 ∷ o3 ∷ o4 ∷ o5 ∷ o6 ∷ rest) o0 p0
        (p1 ∷ p2 ∷ p3 ∷ p4 ∷ p5 ∷ p6 ∷ src) refl refl
      ∙ copy_step true (p0 ∷ []) (o2 ∷ o3 ∷ o4 ∷ o5 ∷ o6 ∷ rest) o1 p1
          (p2 ∷ p3 ∷ p4 ∷ p5 ∷ p6 ∷ src) refl refl
      ∙ copy_step true (p0 ∷ p1 ∷ []) (o3 ∷ o4 ∷ o5 ∷ o6 ∷ rest) o2 p2 (p3 ∷ p4 ∷ p5 ∷ p6 ∷ src)
          refl refl
      ∙ copy_step true (p0 ∷ p1 ∷ p2 ∷ []) (o4 ∷ o5 ∷ o6 ∷ rest) o3 p3 (p4 ∷ p5 ∷ p6 ∷ src) refl
          refl
      ∙ copy_step true (p0 ∷ p1 ∷ p2 ∷ p3 ∷ []) (o5 ∷ o6 ∷ rest) o4 p4 (p5 ∷ p6 ∷ src) refl refl
      ∙ copy_step true (p0 ∷ p1 ∷ p2 ∷ p3 ∷ p4 ∷ []) (o6 ∷ rest) o5 p5 (p6 ∷ src) refl refl
      ∙ copy_last (p0 ∷ p1 ∷ p2 ∷ p3 ∷ p4 ∷ p5 ∷ []) rest o6 p6 src refl refl)
