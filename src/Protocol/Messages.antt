-- ===== src/Protocol/Messages.antt =====
-- src/protocol/protocol_network.h: the messages of the connection service, as the layout of packets
-- describes them.
use Prim.Native.String.{String}
use librtaio.Base.{
  ℕ, ◌+◌, ◌*◌, ◌%◌, ◌^◌, ◌<◌, ◌≡◌, refl, subst, sym, ◌∙◌, List, [], ◌∷◌, ◌++◌, Option, some, length,
  replicate, overlay, All, lt→ltb, arith, length-append, length-replicate,
}
use librtaio.Stream.Host.{Host}
use librtaio.Stream.ByteOrder.{be_bytes, of_be}
use librtaio.Stream.ByteOrder.Swap.{IsBytes, length-be_bytes, be_bytes-IsBytes, of_be_2}
use librtaio.Protocol.Field.{
  Field, type_short, type_long, scalar, string_field, sign_extend, to_int, strlen, msg_value,
  msg_tail, msg_connect_fields, msg_connect_resp_fields, msg_disconnect_fields,
  msg_common_req_fields, msg_common, body_mark,
}
use librtaio.Protocol.Fields.{field_size}
use librtaio.Protocol.Fields.Size.{Sized}
use librtaio.Protocol.Wire.{Header, message}
use librtaio.Protocol.Encode.Steps.{Sends-short}
use librtaio.Protocol.Encode.Body.{Body, Sends-string}
use librtaio.Protocol.Decode.Body.{Fills, Takes, Takes-short, Takes-string}

abbrev pub first_field : Field
first_field = scalar type_long body_mark "bmark"

-- The header of a request or a response with the given method, result and time.
abbrev pub header_with : ℕ → ℕ → ℕ → ℕ → Header
header_with method bsize ret now = record {
  method = method;
  bsize = bsize;
  ret = ret;
  time = now;
  count = 1;
}

-- The text of a char array, with the zero that ends it.
abbrev pub c_string : List ℕ → List ℕ
c_string c = c ++ (0 ∷ [])

abbrev pub IsText : List ℕ → Type 0
IsText c = All (λ b. (0 < b) × (b < 256)) c

text-IsBytes : (c : List ℕ) → IsText c → IsBytes (c_string c)
text-IsBytes [] t = (omega arith, tt)
text-IsBytes (b ∷ c) (p, t) = (p.1, text-IsBytes c t)

pub length-c_string : (c : List ℕ) → length (c_string c) ≡ length c + 1
length-c_string c = length-append c (0 ∷ [])

-- strlen stops at the first zero.
pub strlen-text : (c rest : List ℕ) → IsText c → strlen (c_string c ++ rest) ≡ length c
unfolding strlen
strlen-text [] rest t = refl
strlen-text (b ∷ c) rest (p, t) = rw (lt→ltb 0 b p.0, strlen, strlen-text c rest t) (omega arith)

-- The four fields of a connection request.
abbrev pub connect_fields : ℕ → List ℕ → ℕ → List ℕ → List Field
connect_fields k c l p =
    scalar type_short k "clientname_len"
    ∷ string_field c "clientname"
    ∷ scalar type_short l "processname_len"
    ∷ string_field p "processname"
    ∷ []

pub msg_connect_fields-message :
    (now : ℕ) (c p : List ℕ)
    → msg_connect_fields now c p
      ≡ message
          (header_with 2 0 0 now)
          0
          (connect_fields (strlen c + 1) c (strlen p + 1) p ++ msg_tail)
unfolding msg_connect_fields msg_tail
msg_connect_fields-message now c p = refl

-- Its bytes: each name with its length in front.
abbrev pub connect_bytes : List ℕ → List ℕ → List ℕ
connect_bytes c p =
    be_bytes 2 ((length c + 1) % 2 ^ 16)
    ++ (c_string c ++ (be_bytes 2 ((length p + 1) % 2 ^ 16) ++ (c_string p ++ [])))

short_value : (k : ℕ) → k < 2 ^ 15 → sign_extend 16 (of_be (be_bytes 2 (k % 2 ^ 16))) ≡ k
short_value k small =
    let same : k % 2 ^ 16 % 2 ^ 16 ≡ k = omega arith in
    rw (of_be_2 (k % 2 ^ 16), same, lt→ltb k (2 ^ 15) small)

pub length-connect_bytes : (c p : List ℕ) → length (connect_bytes c p) ≡ length c + length p + 6
length-connect_bytes c p = omega (arith, length-append {0}, length-be_bytes)

pub Takes-short_value :
    (h : Host) (cnt : ℕ) (prev : Field) (x : ℕ) (n : String) (k : ℕ)
    → k < 2 ^ 15
    → Takes h cnt prev (scalar type_short x n) (be_bytes 2 (k % 2 ^ 16)) (scalar type_short k n)
Takes-short_value h cnt prev x n k small =
    subst
      (λ v.
        Takes h cnt prev (scalar type_short x n) (be_bytes 2 (k % 2 ^ 16)) (scalar type_short v n))
      (short_value k small)
      (Takes-short h cnt prev x n (be_bytes 2 (k % 2 ^ 16)) (be_bytes-IsBytes 2 (k % 2 ^ 16))
        (length-be_bytes 2 (k % 2 ^ 16)))

pub Takes-name :
    (h : Host) (cnt : ℕ) (t : List ℕ) (n n' : String)
    → length t < 1024
    → Takes h cnt
        (scalar type_short (length t + 1) n)
        (string_field (replicate 1024 0) n')
        (c_string t)
        (string_field (overlay (c_string t) (replicate 1024 0)) n')
Takes-name h cnt t n n' short =
    Takes-string h cnt (scalar type_short (length t + 1) n) (replicate 1024 0) n' (c_string t) refl
      refl (sym (length-c_string t)) (omega (arith, length-c_string t))
      (omega (arith, length-c_string t))
      (omega (arith, length-c_string t, length-replicate {A = ℕ} 1024 0))

-- What the server's arrays of 1024 zeros become.
abbrev pub received_fields : List ℕ → List ℕ → List Field
received_fields c p =
    connect_fields (length c + 1) (overlay (c_string c) (replicate 1024 0)) (length p + 1)
      (overlay (c_string p) (replicate 1024 0))

module _ (c p cr pr : List ℕ) (ct : IsText c) (pt : IsText p) where
  -- The request for the names `c` and `p`, in arrays with more bytes behind them.
  abbrev pub request_fields : List Field
  request_fields =
      connect_fields (length c + 1) (c_string c ++ cr) (length p + 1) (c_string p ++ pr)

  pub connect_request :
      (now : ℕ)
      → msg_connect_fields now (c_string c ++ cr) (c_string p ++ pr)
        ≡ message (header_with 2 0 0 now) 0 (request_fields ++ msg_tail)
  connect_request now =
      msg_connect_fields-message now (c_string c ++ cr) (c_string p ++ pr)
      ∙ rw (strlen-text c cr ct, strlen-text p pr pt)

  module _ (cshort : length c < 1024) (pshort : length p < 1024) where
    pub connect-Body :
        (h : Host) (cnt : Option ℕ) → Body h cnt first_field request_fields (connect_bytes c p)
    connect-Body h cnt =
        Body.next refl (Sends-short h cnt (some first_field) (length c + 1) "clientname_len") (
          Body.next refl
            (Sends-string h cnt (scalar type_short (length c + 1) "clientname_len") (c_string c) cr
              "clientname" refl (sym (length-c_string c)) (omega (arith, length-c_string c))
              (text-IsBytes c ct))
            (Body.next refl
              (Sends-short h cnt (some (string_field (c_string c ++ cr) "clientname"))
                (length p + 1) "processname_len")
              (Body.next refl
                (Sends-string h cnt (scalar type_short (length p + 1) "processname_len")
                  (c_string p) pr "processname" refl (sym (length-c_string p))
                  (omega (arith, length-c_string p)) (text-IsBytes p pt))
                Body.end)))

    pub connect-Fills :
        (h : Host) (cnt x y : ℕ)
        → Fills h cnt first_field
            (connect_fields x (replicate 1024 0) y (replicate 1024 0))
            (connect_bytes c p)
            (received_fields c p)
    connect-Fills h cnt x y =
        Fills.next refl
          (Takes-short_value h cnt first_field x "clientname_len" (length c + 1) (omega arith))
          (Fills.next refl (Takes-name h cnt c "clientname_len" "clientname" cshort) (
            Fills.next refl
              (Takes-short_value h cnt
                (string_field (overlay (c_string c) (replicate 1024 0)) "clientname") y
                "processname_len" (length p + 1) (omega arith))
              (Fills.next refl (Takes-name h cnt p "processname_len" "processname" pshort)
                Fills.end)))

    pub connect-Sized : Sized 1 first_field request_fields (length c + length p + 6)
    unfolding field_size
    connect-Sized =
        let c_size : to_int (1 * (length c + 1)) ≡ length c + 1 = omega arith in
        let p_size : to_int (1 * (length p + 1)) ≡ length p + 1 = omega arith in
        let all : 2 + (length c + 1 + (2 + (length p + 1 + 0))) ≡ length c + length p + 6 =
          omega arith in
        subst (Sized 1 first_field request_fields) all (
          Sized.next refl refl (
            Sized.next refl (rw c_size)
              (Sized.next refl refl (Sized.next refl (rw p_size) Sized.end))))

-- The response: one field, the client's permission.
abbrev pub response_fields : ℕ → List Field
response_fields priv = scalar type_short priv "permission" ∷ []

abbrev pub response_bytes : ℕ → List ℕ
response_bytes priv = be_bytes 2 (priv % 2 ^ 16) ++ []

pub connect_response :
    (now retcode priv : ℕ)
    → msg_connect_resp_fields now retcode priv
      ≡ message (header_with 2 0 retcode now) 0 (response_fields priv ++ msg_tail)
unfolding msg_connect_resp_fields msg_tail
connect_response now retcode priv = refl

pub response-Body :
    (h : Host) (cnt : Option ℕ) (priv : ℕ)
    → Body h cnt first_field (response_fields priv) (response_bytes priv)
response-Body h cnt priv =
    Body.next refl (Sends-short h cnt (some first_field) priv "permission") Body.end

pub response-Fills :
    (h : Host) (cnt x priv : ℕ)
    → priv < 2 ^ 15
    → Fills h cnt first_field (response_fields x) (response_bytes priv) (response_fields priv)
response-Fills h cnt x priv small =
    Fills.next refl (Takes-short_value h cnt first_field x "permission" priv small) Fills.end

pub response-Sized : (priv : ℕ) → Sized 1 first_field (response_fields priv) 2
unfolding field_size
response-Sized priv = Sized.next refl refl Sized.end

pub disconnect_request :
    (now : ℕ) → msg_disconnect_fields now ≡ message (header_with 3 0 0 now) 0 msg_tail
unfolding msg_disconnect_fields msg_tail
disconnect_request now = refl

pub common_request :
    (now : ℕ)
    → msg_common_req_fields now (msg_value msg_common) ≡ message (header_with 1 0 0 now) 0 msg_tail
unfolding msg_common_req_fields msg_tail msg_value
common_request now = refl
