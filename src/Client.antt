-- ===== src/Client.antt =====
-- The command line of the client: src/client/arg_parser.c, and the dispatch of src/client/client.c.
-- The arguments are texts, without their NUL; `args[i]` behind the last one is `NULL`, whose use is a
-- fault.
pub mod Arguments
pub mod Settings
pub mod Execute
pub mod Examples
use pekar_drive.Common.{
  ℕ, zero, suc, ◌+◌, ◌%◌, ◌^◌, Bool, true, false, Option, none, some, List, [], ◌∷◌, length,
  get_elem?, ltb, leb, ◌==◌, ◌&&◌, ◌||◌, not, if◌then◌else◌,
}
use pekar_drive.Result.{Result, ok, err, null_pointer, ◌>>=◌}
use pekar_drive.Memory.{Bytes, Memory}
use pekar_drive.Memory.Strings.{codes, same}
use pekar_drive.Client.Settings.{get_master_host}

-- parse_error_msg
abbrev pub ErrorMsg : Type 0
ErrorMsg = Option Bytes

-- `args[i]`, for a use of the string.
abbrev pub argument : List Bytes → ℕ → Result Bytes
argument args i = elim (get_elem? args i) [ none ↦ err null_pointer | some a ↦ ok a ]

unfoldable pub set_err_msg : Bytes → ErrorMsg → ErrorMsg
set_err_msg msg old = some msg

unfoldable pub error_msg : ErrorMsg → ErrorMsg
error_msg parse_error_msg = parse_error_msg

unfoldable pub parse_ls : ℕ → ErrorMsg → Bool × ErrorMsg
unfolding set_err_msg
parse_ls arg_count e =
    if ltb 2 arg_count
    then (true, set_err_msg (codes "No arguments to 'ls'needed.") e)
    else (true, e)

unfoldable pub parse_read : ℕ → ErrorMsg → Bool × ErrorMsg
unfolding set_err_msg
parse_read arg_count e =
    if ltb arg_count 3
    then (false, set_err_msg (codes "Missing file name to read from.") e)
    else if ltb 3 arg_count
    then (true, set_err_msg (codes "'read' requires only one argument.") e)
    else (true, e)

unfoldable pub parse_write : ℕ → ErrorMsg → Bool × ErrorMsg
unfolding set_err_msg
parse_write arg_count e =
    if ltb arg_count 4
    then (false, set_err_msg (codes "'write' requires file name and data to write.") e)
    else if ltb 4 arg_count
    then (true, set_err_msg (codes "'write' requires only two arguments.") e)
    else (true, e)

unfoldable pub parse_append : ℕ → ErrorMsg → Bool × ErrorMsg
unfolding set_err_msg
parse_append arg_count e =
    if ltb arg_count 4
    then (false, set_err_msg (codes "'append' requires file name and data to write.") e)
    else if ltb 4 arg_count
    then (true, set_err_msg (codes "'write' requires only two arguments.") e)
    else (true, e)

unfoldable pub parse_delete : ℕ → ErrorMsg → Bool × ErrorMsg
unfolding set_err_msg
parse_delete arg_count e =
    if ltb arg_count 3
    then (false, set_err_msg (codes "Missing file name to delete.") e)
    else if ltb 3 arg_count
    then (true, set_err_msg (codes "'delete' requires only one argument.") e)
    else (true, e)

unfoldable pub parse_set_ip : ℕ → ErrorMsg → Bool × ErrorMsg
unfolding set_err_msg
parse_set_ip arg_count e =
    if ltb arg_count 3
    then (false, set_err_msg (codes "Missing IP address.") e)
    else if ltb 3 arg_count
    then (true, set_err_msg (codes "'set-ip' requires only one argument.") e)
    else (true, e)

unfoldable pub parse_set_port : ℕ → ErrorMsg → Bool × ErrorMsg
unfolding set_err_msg
parse_set_port arg_count e =
    if ltb arg_count 3
    then (false, set_err_msg (codes "Missing port number.") e)
    else if ltb 3 arg_count
    then (true, set_err_msg (codes "'set-port' requires only one argument.") e)
    else (true, e)

-- The comparisons of parse_operation, for the text of `args[1]`.
unfoldable pub parse_named : Bytes → ℕ → ErrorMsg → Bool × ErrorMsg
parse_named op arg_count e =
    if same op (codes "ls")
    then parse_ls arg_count e
    else if same op (codes "read")
    then parse_read arg_count e
    else if same op (codes "write")
    then parse_write arg_count e
    else if same op (codes "append")
    then parse_append arg_count e
    else if same op (codes "delete")
    then parse_delete arg_count e
    else if same op (codes "set-ip")
    then parse_set_ip arg_count e
    else if same op (codes "set-port")
    then parse_set_port arg_count e
    else (false, set_err_msg (codes "Unrecognized operation.") e)

-- `arg_count` is an `unsigned short`.
unfoldable pub parse_operation : List Bytes → ℕ → ErrorMsg → Result (Bool × ErrorMsg)
parse_operation args arg_count e = do op ← argument args 1; ok (parse_named op arg_count e)

unfoldable pub parse_args : List Bytes → ℕ → ErrorMsg → Result (Bool × ErrorMsg)
parse_args argv argc e =
    if ltb argc 2
    then ok (false, set_err_msg (codes "Not enough arguments.") e)
    else parse_operation argv (argc % 2 ^ 16) e

-- The call that operation_handler makes, with its arguments as they are used.
pub data Call : Type 0 where
  exec_ls nothing : Call
  exec_read exec_delete exec_set_ip exec_set_port : Bytes → Call
  exec_write_append : Bytes → Bytes → Bool → Call

-- The use of a string that may be `NULL`.
abbrev pub use_arg : Option Bytes → Result Bytes
use_arg none = err null_pointer
use_arg (some s) = ok s

unfoldable pub operation_handler : Bytes → Option Bytes → Option Bytes → Result Call
operation_handler op arg1 arg2 =
    if same op (codes "ls")
    then ok exec_ls
    else if same op (codes "read")
    then (do file ← use_arg arg1; ok (exec_read file))
    else if same op (codes "write") || same op (codes "append")
    then (do
      file ← use_arg arg1
      content ← use_arg arg2
      ok (exec_write_append file content (same op (codes "append"))))
    else if same op (codes "delete")
    then (do file ← use_arg arg1; ok (exec_delete file))
    else if same op (codes "set-ip")
    then (do ip ← use_arg arg1; ok (exec_set_ip ip))
    else if same op (codes "set-port")
    then (do port ← use_arg arg1; ok (exec_set_port port))
    else ok nothing

-- `main`: the call, unless an error ends it. `file` is the configuration; the address that it holds
-- is read, where the operation is not one that sets it, before the call is made.
unfoldable pub main : Memory → Option Bytes → List Bytes → ℕ → Result (Option Call)
main mem file argv argc = do
  (accepted, e) ← parse_args argv argc none
  (if not accepted then ok none else do
    op ← argument argv 1
    let arg1 = if leb 3 argc then get_elem? argv 2 else none
    let arg2 = if leb 4 argc then get_elem? argv 3 else none
    let called = (do call ← operation_handler op arg1 arg2; ok (some call))
    (if not (same op (codes "set-ip")) && not (same op (codes "set-port"))
        then (do host ← get_master_host mem file; elim host [ none ↦ ok none | some ip ↦ called ])
        else called))
