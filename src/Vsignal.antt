-- ===== src/Vsignal.antt =====
-- src_vsignal/server: the netlist library as a parameter, its handles as JSON (npi_helpers.h), and
-- the state of the server.
pub mod Handlers
pub mod Dispatch
pub mod Replies
pub mod Limits
pub mod Answers
use tool_debug.Common.{
  ℕ, zero, suc, Bytes, codes, List, [], ◌∷◌, ◌++◌, map, ℤ, pos, negsuc, ltb_ℤ, Bool, true, false,
  ◌&&◌, ◌||◌, Option, none, some, if◌then◌else◌, length, take,
}
use tool_debug.Json.Builder.{JsonObject, set, set_int, set_raw, dump}

-- The constants npiNl... of the types and the directions; `other` stands for every other int.
pub data NlType : Type 0 where
  nl_inst nl_port nl_inst_port nl_decl_net nl_concat_net nl_slice_net nl_pseudo_port : NlType
  nl_pseudo_inst_port nl_pseudo_net nl_lib nl_cell nl_cell_pin nl_other : NlType

pub data NlDirection : Type 0 where
  nl_input nl_output nl_inout nl_none : NlDirection

-- What npi_nl_get and npi_nl_get_str give for a handle that is not null; `none` is a null pointer.
pub record NlObject : Type 0 where
  pub nl_type : NlType
  pub name : Option Bytes
  pub full_name : Option Bytes
  pub def_name : Option Bytes
  pub cell_type : ℤ
  pub direction : NlDirection
  pub size : ℤ
  pub file : Option Bytes
  pub line_begin : ℤ
  pub line_end : ℤ

-- A handle of the language model (npi_get_str): its npiFullName and its npiName.
pub record Hdl : Type 0 where
  pub hdl_full_name : Option Bytes
  pub hdl_name : Option Bytes

-- The calls of the NPI library: the value returned and the vector that is filled. A handle is
-- `none` where it is null.
pub record Netlist : Type 0 where
  pub trace_driver : Bytes → ℤ → ℤ → ℤ × List (Option NlObject)
  pub trace_load : Bytes → ℤ → ℤ → ℤ × List (Option NlObject)
  pub fan_in_reg : Bytes → Bool → Bool → Option Bytes → ℤ × List (Option NlObject)
  pub fan_out_reg : Bytes → Bool → Bool → Option Bytes → ℤ × List (Option NlObject)
  pub sig_2_sig : Bytes → Bytes → ℤ → ℤ × List (Option NlObject)
  pub low_conn : Bytes → ℤ × List (Hdl × List Hdl)
  pub high_conn : Bytes → ℤ × List (Hdl × List Hdl)

-- The globals of the server; the uptime is in seconds.
pub record DesignServer : Type 0 where
  pub netlist : Netlist
  pub design_source : Bytes
  pub pid : ℤ
  pub uptime : ℤ

unfoldable pub nl_obj_type_str : NlType → Bytes
nl_obj_type_str nl_inst = codes "instance"
nl_obj_type_str nl_port = codes "port"
nl_obj_type_str nl_inst_port = codes "inst_port"
nl_obj_type_str nl_decl_net = codes "net"
nl_obj_type_str nl_concat_net = codes "concat_net"
nl_obj_type_str nl_slice_net = codes "slice_net"
nl_obj_type_str nl_pseudo_port = codes "pseudo_port"
nl_obj_type_str nl_pseudo_inst_port = codes "pseudo_inst_port"
nl_obj_type_str nl_pseudo_net = codes "pseudo_net"
nl_obj_type_str nl_lib = codes "lib"
nl_obj_type_str nl_cell = codes "cell"
nl_obj_type_str nl_cell_pin = codes "cell_pin"
nl_obj_type_str nl_other = codes "unknown"

unfoldable pub nl_direction_str : NlDirection → Bytes
nl_direction_str nl_input = codes "input"
nl_direction_str nl_output = codes "output"
nl_direction_str nl_inout = codes "inout"
nl_direction_str nl_none = codes "none"

-- `p ? p : ""`
abbrev pub or_empty : Option Bytes → Bytes
or_empty none = []
or_empty (some s) = s

-- `if (n > 0) obj.set(key, static_cast<int64_t>(n))`
abbrev pub set_positive : JsonObject → Bytes → ℤ → JsonObject
set_positive obj key n = if ltb_ℤ (pos 0) n then set_int obj key n else obj

abbrev pub set_def_name : JsonObject → Option Bytes → JsonObject
set_def_name obj none = obj
set_def_name obj (some def_name) = set obj (codes "def_name") def_name

-- `if (file && file[0])`
abbrev pub set_file : JsonObject → Option Bytes → JsonObject
set_file obj none = obj
set_file obj (some []) = obj
set_file obj (some (c ∷ file)) = set obj (codes "file") (c ∷ file)

abbrev pub is_port : NlType → Bool
is_port nl_port = true
is_port nl_inst_port = true
is_port nl_pseudo_port = true
is_port nl_pseudo_inst_port = true
is_port _ = false

abbrev pub is_net : NlType → Bool
is_net nl_decl_net = true
is_net nl_concat_net = true
is_net nl_slice_net = true
is_net nl_pseudo_net = true
is_net _ = false

abbrev pub is_inst : NlType → Bool
is_inst nl_inst = true
is_inst _ = false

-- The fields of a handle: the body of nl_handle_to_json before it is dumped.
unfoldable pub handle_fields : NlObject → Bool → JsonObject
unfolding nl_obj_type_str nl_direction_str
handle_fields hdl compact =
    let obj₁ = set [] (codes "type") (nl_obj_type_str hdl.nl_type) in
    let obj₂ = set obj₁ (codes "name") (or_empty hdl.name) in
    let obj₃ = set obj₂ (codes "full_name") (or_empty hdl.full_name) in
    let inst = set_positive (set_def_name obj₃ hdl.def_name) (codes "cell_type") hdl.cell_type in
    let obj₄ = if is_inst hdl.nl_type then inst else obj₃ in
    let port = set obj₄ (codes "direction") (nl_direction_str hdl.direction) in
    let obj₅ = if is_port hdl.nl_type then set_positive port (codes "size") hdl.size else obj₄ in
    let obj₆ = if is_net hdl.nl_type then set_positive obj₅ (codes "size") hdl.size else obj₅ in
    let obj₇ = set_positive (set_file obj₆ hdl.file) (codes "line_begin") hdl.line_begin in
    if compact
    then set [] (codes "name") (or_empty hdl.name)
    else set_positive obj₇ (codes "line_end") hdl.line_end

unfoldable pub nl_handle_to_json : Bool → Option NlObject → Bytes
unfolding handle_fields
nl_handle_to_json compact none = codes "{}"
nl_handle_to_json compact (some hdl) = dump (handle_fields hdl compact)

-- The loops that write `[`, the elements with a comma before each but the first, and `]`.
unfoldable pub join_behind : List Bytes → Bytes
join_behind [] = []
join_behind (s ∷ ss) = b',' ∷ (s ++ join_behind ss)

unfoldable pub join_array : List Bytes → Bytes
unfolding join_behind
join_array [] = codes "[]"
join_array (s ∷ ss) = b'[' ∷ (s ++ (join_behind ss ++ b']' ∷ []))

-- `(limit > 0 && limit < (int64_t)hdlVec.size()) ? limit : (int64_t)hdlVec.size()`
abbrev pub shown_count : ℤ → ℕ → ℕ
shown_count (negsuc n) size = size
shown_count (pos zero) size = size
shown_count (pos (suc n)) size = if ltb_ℤ (pos (suc n)) (pos size) then suc n else size

unfoldable pub nl_hdl_vec_to_json : List (Option NlObject) → Bool → ℤ → Bytes
unfolding nl_handle_to_json join_array
nl_hdl_vec_to_json hdls compact limit =
    join_array (map (nl_handle_to_json compact) (take (shown_count limit (length hdls)) hdls))
