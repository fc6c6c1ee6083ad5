-- ===== src/Protocol/Field.antt =====
-- src/protocol/packet_protocol.h: fields, their types and numbers, message ids and the macros that
-- lay out a message. An integer is its bit pattern.
use Prim.Native.String.{String}
use librtaio.Base.{
  ℕ, ◌+◌, ◌-◌, ◌%◌, ◌^◌, Bool, true, false, List, [], ◌∷◌, ◌++◌, Option, none, some, ltb,
  if◌then◌else◌, length,
}

-- `FIELD.type`: the enumerators, `type_unknown` for any greater value, `type_end` for a negative.
pub data FieldType : Type 0 where
  type_char type_byte type_short type_long type_longlong type_float type_double : FieldType
  type_unknown type_end : FieldType

-- `memory` are the bytes behind the pointer `data`, and `none` the null pointer.
pub record Field : Type 0 where
  pub type : FieldType
  pub ivalue : ℕ
  pub fvalue : ℕ
  pub memory : Option (List ℕ)
  pub count : ℕ
  pub name : String

-- `p->type >= 0`, the test of most loops over fields.
abbrev pub is_field : FieldType → Bool
is_field type_end = false
is_field type_char = true
is_field type_byte = true
is_field type_short = true
is_field type_long = true
is_field type_longlong = true
is_field type_float = true
is_field type_double = true
is_field type_unknown = true

abbrev pub field_hmark : ℕ
field_hmark = 0

abbrev pub field_method : ℕ
field_method = 1

abbrev pub field_bsize : ℕ
field_bsize = 2

abbrev pub field_return : ℕ
field_return = 3

abbrev pub field_time : ℕ
field_time = 4

abbrev pub field_count : ℕ
field_count = 5

abbrev pub field_hcrc : ℕ
field_hcrc = 6

abbrev pub field_bmark : ℕ
field_bmark = 7

abbrev pub field_next : ℕ
field_next = 8

abbrev pub head_mark : ℕ
head_mark = 0x11111111

abbrev pub body_mark : ℕ
body_mark = 0x22222222

pub data MsgId : Type 0 where
  msg_null msg_common msg_connect msg_disconnect msg_get_connect_count : MsgId
  msg_get_connect_info msg_get_connections msg_kill_connection msg_set_timeout : MsgId
  msg_get_timeout msg_user_login msg_user_logout msg_add_user msg_change_pwd : MsgId
  msg_change_privilage msg_get_user_count msg_get_users msg_delete_user : MsgId

unfoldable pub msg_value : MsgId → ℕ
msg_value msg_null = 0
msg_value msg_common = 1
msg_value msg_connect = 2
msg_value msg_disconnect = 3
msg_value msg_get_connect_count = 4
msg_value msg_get_connect_info = 5
msg_value msg_get_connections = 6
msg_value msg_kill_connection = 7
msg_value msg_set_timeout = 8
msg_value msg_get_timeout = 9
msg_value msg_user_login = 10
msg_value msg_user_logout = 11
msg_value msg_add_user = 12
msg_value msg_change_pwd = 13
msg_value msg_change_privilage = 14
msg_value msg_get_user_count = 15
msg_value msg_get_users = 16
msg_value msg_delete_user = 17

-- A signed value of `w` bits, cast to 64 bits.
abbrev pub sign_extend : ℕ → ℕ → ℕ
sign_extend w v = if ltb v (2 ^ (w - 1)) then v else v + (2 ^ 64 - 2 ^ w)

-- `(int)x` of a 64-bit value, and the `size_t` that an `int` becomes as an argument.
abbrev pub to_int : ℕ → ℕ
to_int v = v % 2 ^ 32

abbrev pub to_size : ℕ → ℕ
to_size n = sign_extend 32 n

-- The sign of an `int`.
abbrev pub is_positive : ℕ → Bool
is_positive n = if ltb 0 n then ltb n (2 ^ 31) else false

abbrev pub is_negative : ℕ → Bool
is_negative n = if ltb n (2 ^ 31) then false else true

-- The `int` -1.
abbrev pub minus_one : ℕ
minus_one = 2 ^ 32 - 1

-- An initializer {type, ivalue, 0.0, 0, 1, name}.
abbrev pub scalar : FieldType → ℕ → String → Field
scalar t v n = record { type = t; ivalue = v; fvalue = 0; memory = none; count = 1; name = n }

-- MSG_HEADER(method, ret, count); `now` is time(NULL).
unfoldable pub msg_header : ℕ → ℕ → ℕ → ℕ → List Field
msg_header now method ret count =
    scalar type_long head_mark "hmark"
    ∷ scalar type_long method "method"
    ∷ scalar type_long 0 "bsize"
    ∷ scalar type_long ret "ret"
    ∷ scalar type_long now "time"
    ∷ scalar type_long count "count"
    ∷ scalar type_longlong 0 "hcrc"
    ∷ scalar type_long body_mark "bmark"
    ∷ []

abbrev pub end_field : Field
end_field = record { type = type_end; ivalue = 0; fvalue = 0; memory = none; count = 0; name = "" }

-- MSG_TAIL()
unfoldable pub msg_tail : List Field
msg_tail = scalar type_longlong 0 "bcrc" ∷ end_field ∷ []

unfoldable pub msg_common_req_fields : ℕ → ℕ → List Field
unfolding msg_header msg_tail
msg_common_req_fields now method = msg_header now method 0 1 ++ msg_tail

unfoldable pub msg_common_resp_fields : ℕ → ℕ → ℕ → List Field
unfolding msg_header msg_tail
msg_common_resp_fields now method ret = msg_header now method ret 1 ++ msg_tail

-- FIELDS_LEN: the array's fields without the one that ends it.
abbrev pub fields_len : List Field → ℕ
fields_len fields = length fields - 1

-- A field {TYPE_CHAR, 0, 0.0, data, -1, name} and the field before it with its length, strlen + 1.
unfoldable pub strlen : List ℕ → ℕ
strlen [] = 0
strlen (c ∷ cs) = if ltb 0 c then 1 + strlen cs else 0

abbrev pub string_field : List ℕ → String → Field
string_field cs n = record {
  type = type_char;
  ivalue = 0;
  fvalue = 0;
  memory = some cs;
  count = minus_one;
  name = n;
}

-- src/protocol/protocol_network.h. The names are char arrays.
unfoldable pub msg_connect_fields : ℕ → List ℕ → List ℕ → List Field
unfolding msg_header msg_tail strlen msg_value
msg_connect_fields now clientname processname =
    msg_header now (msg_value msg_connect) 0 1
    ++ (scalar type_short (strlen clientname + 1) "clientname_len"
        ∷ string_field clientname "clientname"
        ∷ scalar type_short (strlen processname + 1) "processname_len"
        ∷ string_field processname "processname"
        ∷ msg_tail)

unfoldable pub msg_connect_resp_fields : ℕ → ℕ → ℕ → List Field
unfolding msg_header msg_tail msg_value
msg_connect_resp_fields now retcode priv =
    msg_header now (msg_value msg_connect) retcode 1
    ++ (scalar type_short priv "permission" ∷ msg_tail)

unfoldable pub msg_disconnect_fields : ℕ → List Field
unfolding msg_header msg_tail msg_value
msg_disconnect_fields now = msg_header now (msg_value msg_disconnect) 0 1 ++ msg_tail
