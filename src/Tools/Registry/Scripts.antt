-- ===== src/Tools/Registry/Scripts.antt =====
-- crates/claw-tools/src/registry.rs: script tools, `load_from_script` and `unload`, and what
-- unloading a script tool answers. The file system is a parameter: a `ScriptFile` is what it tells
-- of one path.
use claw_kernel.Prelude.{
  ℕ, ◌≡◌, refl, ap, subst, Bool, true, false, Option, none, some, String, if◌then◌else◌, is_some,
  str_eq, str_eq_refl, Result, ok, err, arith,
}
use Prim.Native.String.{◌++◌ as ◌+++◌}
use claw_kernel.Prelude.KeyedMap.{KeyedMap}
use claw_kernel.Tools.Types.{
  Tool, ToolMeta, minimal, ScriptLanguage, lua, type_script, python, script, LoadedToolMeta,
  LoadError, io_error, parse_error, tool_not_found,
}
use claw_kernel.Tools.Registry.{ToolRegistry, unregister, unload}

pub record ScriptFile : Type 0 where
  pub path : String
  pub exists : Bool
  pub content : Result String String
  pub extension : Option String
  pub file_stem : Option String
  pub loaded_at : ℕ

abbrev unwrap_or_empty : Option String → String
unwrap_or_empty none = ""
unwrap_or_empty (some s) = s

unfoldable pub language_of : String → Option ScriptLanguage
language_of extension =
    if str_eq extension "lua"
    then some lua
    else if str_eq extension "js"
    then some type_script
    else if str_eq extension "ts"
    then some type_script
    else if str_eq extension "py"
    then some python
    else none

module _ {T S J : Type 0} (tool_ops : KeyedMap T (Tool J)) (script_ops : KeyedMap S LoadedToolMeta)
    (object_schema : J) where
  abbrev pub Loaded : Type 0
  Loaded = ToolRegistry T S × Result LoadError (ToolMeta J)

  -- The file has a name: its metadata is stored.
  unfoldable pub store_script : ScriptFile → String → ScriptLanguage → ToolRegistry T S → Loaded
  store_script f tool_name language r =
      let source = script f.path language in
      (
        record r {
          script_tools =
              script_ops.insert tool_name
                (record { name = tool_name; source = source; loaded_at = f.loaded_at })
                r.script_tools;
        },
        ok (record {
          schema = record {
            name = tool_name;
            description = "Script tool from " +++ f.path;
            parameters = object_schema;
          };
          permissions = minimal;
          timeout_ms = 30000;
          source = source;
        }),
      )

  unfoldable pub load_named :
      ScriptFile → Option String → ScriptLanguage → ToolRegistry T S → Loaded
  unfolding store_script
  load_named f none language r = (r, err (parse_error f.path "Invalid file name"))
  load_named f (some tool_name) language r = store_script f tool_name language r

  unfoldable pub load_language : ScriptFile → Option ScriptLanguage → ToolRegistry T S → Loaded
  unfolding load_named
  load_language f none r =
      (r, err (parse_error f.path ("Unknown script extension: " +++ unwrap_or_empty f.extension)))
  load_language f (some language) r = load_named f f.file_stem language r

  unfoldable pub load_content : ScriptFile → Result String String → ToolRegistry T S → Loaded
  unfolding load_language language_of
  load_content f (err e) r = (r, err (io_error e))
  load_content f (ok text) r = load_language f (language_of (unwrap_or_empty f.extension)) r

  unfoldable pub load_from_script : ScriptFile → ToolRegistry T S → Loaded
  unfolding load_content
  load_from_script f r =
      if f.exists
      then load_content f f.content r
      else (r, err (io_error ("File not found: " +++ f.path)))

  -- A load changes nothing but the table of scripts.
  abbrev pub ChangesScripts : ToolRegistry T S → Loaded → Type 0
  ChangesScripts r loaded = loaded.0 ≡ record r { script_tools = loaded.0.script_tools }

  load_named-ChangesScripts :
      (f : ScriptFile) (stem : Option String) (language : ScriptLanguage) (r : ToolRegistry T S)
      → ChangesScripts r (load_named f stem language r)
  unfolding load_named store_script
  load_named-ChangesScripts f none language r = refl
  load_named-ChangesScripts f (some name) language r = refl

  load_language-ChangesScripts :
      (f : ScriptFile) (language : Option ScriptLanguage) (r : ToolRegistry T S)
      → ChangesScripts r (load_language f language r)
  unfolding load_language
  load_language-ChangesScripts f none r = refl
  load_language-ChangesScripts f (some language) r =
      load_named-ChangesScripts f f.file_stem language r

  load_content-ChangesScripts :
      (f : ScriptFile) (content : Result String String) (r : ToolRegistry T S)
      → ChangesScripts r (load_content f content r)
  unfolding load_content
  load_content-ChangesScripts f (err e) r = refl
  load_content-ChangesScripts f (ok text) r = load_language-ChangesScripts f _ r

  pub load_from_script-ChangesScripts :
      (f : ScriptFile) (r : ToolRegistry T S) → ChangesScripts r (load_from_script f r)
  unfolding load_from_script
  load_from_script-ChangesScripts f r = by_existence f.exists
    where
      by_existence :
          (b : Bool)
          → ChangesScripts r (
              if b
              then load_content f f.content r
              else (r, err (io_error ("File not found: " +++ f.path))))
      by_existence true = load_content-ChangesScripts f f.content r
      by_existence false = refl

  -- The script is known under the name; to unload it forgets it, and answers that there is no tool.
  abbrev pub UnloadRefuses : String → ToolRegistry T S → Type 0
  UnloadRefuses name r =
      let unloaded = unload {J = J} tool_ops script_ops name r in
      (is_some (script_ops.get name r.script_tools) ≡ true)
      × (script_ops.get name unloaded.registry.script_tools ≡ none)
      × (unloaded.returned ≡ err (tool_not_found name))

  abbrev LoadThenUnload : ToolRegistry T S → Loaded → Type 0
  LoadThenUnload r loaded =
      (meta : ToolMeta J)
      → loaded.1 ≡ ok meta
      → tool_ops.get meta.schema.name r.tools ≡ none
      → UnloadRefuses meta.schema.name loaded.0

  stored_name :
      (f : ScriptFile) (name : String) (language : ScriptLanguage) (r : ToolRegistry T S)
      (meta : ToolMeta J)
      → (store_script f name language r).1 ≡ ok meta
      → name ≡ meta.schema.name
  unfolding store_script
  stored_name f name language r meta same = ap name_of same
    where
      name_of : Result LoadError (ToolMeta J) → String
      name_of (ok m) = m.schema.name
      name_of (err e) = name

  store_then_unload :
      (f : ScriptFile) (name : String) (language : ScriptLanguage) (r : ToolRegistry T S)
      → tool_ops.get name r.tools ≡ none
      → UnloadRefuses name (store_script f name language r).0
  unfolding store_script unload unregister
  store_then_unload f name language r free = rw free (
    rw (script_ops.get-insert name name _ r.script_tools) (rw (str_eq_refl name) refl),
    rw (script_ops.get-remove name name _) (rw (str_eq_refl name) refl),
    refl,
  )

  load_named_then_unload :
      (f : ScriptFile) (stem : Option String) (language : ScriptLanguage) (r : ToolRegistry T S)
      → LoadThenUnload r (load_named f stem language r)
  unfolding load_named
  load_named_then_unload f none language r meta same free = absurd (ground arith)
  load_named_then_unload f (some name) language r meta same free =
      subst
        (λ n. tool_ops.get n r.tools ≡ none → UnloadRefuses n (store_script f name language r).0)
        (stored_name f name language r meta same) (store_then_unload f name language r) free

  load_language_then_unload :
      (f : ScriptFile) (language : Option ScriptLanguage) (r : ToolRegistry T S)
      → LoadThenUnload r (load_language f language r)
  unfolding load_language
  load_language_then_unload f none r meta same free = absurd (ground arith)
  load_language_then_unload f (some language) r meta same free =
      load_named_then_unload f f.file_stem language r meta same free

  load_content_then_unload :
      (f : ScriptFile) (content : Result String String) (r : ToolRegistry T S)
      → LoadThenUnload r (load_content f content r)
  unfolding load_content
  load_content_then_unload f (err e) r meta same free = absurd (ground arith)
  load_content_then_unload f (ok text) r meta same free =
      load_language_then_unload f _ r meta same free

  -- A script that `load_from_script` loads, under a name that no registered tool has, is known by
  -- its metadata; `unload` forgets it and answers all the same that there is no such tool.
  pub load_then_unload :
      (f : ScriptFile) (r : ToolRegistry T S) (meta : ToolMeta J)
      → (load_from_script f r).1 ≡ ok meta
      → tool_ops.get meta.schema.name r.tools ≡ none
      → UnloadRefuses meta.schema.name (load_from_script f r).0
  unfolding load_from_script
  load_then_unload f r = by_existence f.exists
    where
      by_existence :
          (b : Bool)
          → LoadThenUnload r (
              if b
              then load_content f f.content r
              else (r, err (io_error ("File not found: " +++ f.path))))
      by_existence true meta same free = load_content_then_unload f f.content r meta same free
      by_existence false meta same free = absurd (ground arith)
