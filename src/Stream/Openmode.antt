-- ===== src/Stream/Openmode.antt =====
-- The open modes of ssh/stream.hpp and their translation to the flags of libssh2. A mode is the record
-- of its bits; `in` and `out` are `input` and `output` here.
pub mod Meaning
use ssh2_cpp.Base.{Bool, true, false, not, ◌||◌, if◌then◌else◌}
use ssh2_cpp.Libssh2.{OpenFlags, no_open_flags}
use ssh2_cpp.Effect.{Outcome, returned, thrown, plain, invalid_argument}

pub record Openmode : Type 0 where
  pub input : Bool
  pub output : Bool
  pub app : Bool
  pub trunc : Bool
  pub nocreate : Bool
  pub noreplace : Bool

-- `openmode::value()`
abbrev pub no_mode : Openmode
no_mode = record {
  input = false;
  output = false;
  app = false;
  trunc = false;
  nocreate = false;
  noreplace = false;
}

-- `std::ios_base::openmode`
pub record StdOpenmode : Type 0 where
  pub std_in : Bool
  pub std_out : Bool
  pub std_ate : Bool
  pub std_app : Bool
  pub std_trunc : Bool
  pub std_binary : Bool

-- `operator|`
unfoldable pub mode_or : Openmode → Openmode → Openmode
mode_or l r = record {
  input = l.input || r.input;
  output = l.output || r.output;
  app = l.app || r.app;
  trunc = l.trunc || r.trunc;
  nocreate = l.nocreate || r.nocreate;
  noreplace = l.noreplace || r.noreplace;
}

unfoldable pub translate_flags : StdOpenmode → Outcome Openmode
translate_flags std =
    let m = if std.std_in then record no_mode { input = true } else no_mode in
    let m' = if std.std_out then record m { output = true } else m in
    if std.std_ate
    then thrown (plain (invalid_argument "ate flag not yet supported"))
    else let a = if std.std_app then record m' { app = true } else m' in
      let t = if std.std_trunc then record a { trunc = true } else a in returned t

-- The block on `nocreate` and `noreplace`, which stands in both branches, and what follows it.
creation : Openmode → OpenFlags → (OpenFlags → OpenFlags) → Outcome OpenFlags
creation m flags after =
    if not m.nocreate
    then returned (
        after (
          let c = record flags { fxf_creat = true } in
          if m.noreplace then record c { fxf_excl = true } else c))
    else if m.noreplace
    then thrown (plain (invalid_argument "Cannot combine nocreate and noreplace"))
    else returned (after flags)

output_flags : Openmode → OpenFlags → Outcome OpenFlags
unfolding creation
output_flags m flags =
    if m.input
    then (if m.trunc then creation m flags (λ f. record f { fxf_trunc = true }) else returned flags)
    else creation m flags
        (λ f. if m.app then record f { fxf_append = true } else record f { fxf_trunc = true })

unfoldable pub openmode_to_libssh2_flags : Openmode → Outcome OpenFlags
unfolding output_flags
openmode_to_libssh2_flags m =
    let flags = if m.input then record no_open_flags { fxf_read = true } else no_open_flags in
    if m.output then output_flags m (record flags { fxf_write = true }) else returned flags
