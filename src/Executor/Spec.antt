-- ===== src/Executor/Spec.antt =====
-- internal/probe/executor/adapter.go: the process that a command starts. `windows` stands for the
-- test of runtime.GOOS.
use Prim.Native.Char.{Char}
use legator.Common.{
  String, Bool, true, false, ◌||◌, List, [], ◌∷◌, str_eq, starts_with, if◌then◌else◌, Result, ok,
  err,
}
use legator.Common.Text.{trim_space, map_chars, join_space}
use legator.Protocol.{CommandPayload}

pub record ExecSpec : Type 0 where
  pub name : String
  pub args : List String

pub data SpecError : Type 0 where
  command_required script_required arguments_required : SpecError

abbrev exec_spec : String → List String → Result SpecError ExecSpec
exec_spec name args = ok (record { name = name; args = args })

module _ (lower : Char → Char) where
  -- The case of PowerShell.
  unfoldable pub powershell_spec : List String → Result SpecError ExecSpec
  powershell_spec args =
      let script = trim_space (join_space args) in
      let of_script =
        if str_eq script ""
        then err script_required
        else exec_spec "powershell.exe"
            ("-NoProfile" ∷ "-NonInteractive" ∷ "-Command" ∷ script ∷ []) in
      elim args [
        | [] ↦ of_script
        | first ∷ rest ↦
            if starts_with (map_chars lower (trim_space first)) "-"
            then exec_spec "powershell.exe" (first ∷ rest)
            else of_script
      ]

  -- The case of cmd.exe.
  unfoldable pub cmd_spec : List String → Result SpecError ExecSpec
  cmd_spec args =
      let line = trim_space (join_space args) in
      let of_line =
        if str_eq line "" then err arguments_required else exec_spec "cmd.exe" ("/C" ∷ line ∷ []) in
      elim args [
        | [] ↦ of_line
        | first ∷ rest ↦
            let arg0 = map_chars lower (trim_space first) in
            if str_eq arg0 "/c" || str_eq arg0 "/k"
            then exec_spec "cmd.exe" (first ∷ rest)
            else of_line
      ]

  -- buildExecSpec
  unfoldable pub build_exec_spec : Bool → CommandPayload → Result SpecError ExecSpec
  unfolding powershell_spec cmd_spec
  build_exec_spec windows cmd =
      let command = trim_space (map_chars lower cmd.command) in
      if str_eq (trim_space cmd.command) "" then err command_required else elim windows [
        | false ↦ exec_spec cmd.command cmd.args
        | true ↦
            if str_eq command "powershell"
              || str_eq command "powershell.exe"
              || str_eq command "pwsh"
              || str_eq command "pwsh.exe"
            then powershell_spec cmd.args
            else if str_eq command "cmd" || str_eq command "cmd.exe"
            then cmd_spec cmd.args
            else exec_spec "cmd.exe" ("/C" ∷ cmd.command ∷ cmd.args)
      ]
