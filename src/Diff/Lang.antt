-- ===== src/Diff/Lang.antt =====
-- The language of a file by its extension (diffgraph/lang.py). The extension of a path,
-- `os.path.splitext(path)[1].lower()`, is a parameter.
use diff_graph.Base.{List, String, [], if◌then◌else◌, str_eq, ℕ, ◌∷◌}

abbrev pub lang_map : List (String × String)
lang_map =
    (".java", "java")
    ∷ (".kt", "kotlin")
    ∷ (".kts", "kotlin")
    ∷ (".scala", "scala")
    ∷ (".sc", "scala")
    ∷ (".js", "javascript")
    ∷ (".jsx", "javascript")
    ∷ (".mjs", "javascript")
    ∷ (".cjs", "javascript")
    ∷ (".ts", "typescript")
    ∷ (".tsx", "typescript")
    ∷ (".py", "python")
    ∷ (".pyi", "python")
    ∷ (".go", "go")
    ∷ (".rs", "rust")
    ∷ (".c", "c")
    ∷ (".h", "c")
    ∷ (".cpp", "cpp")
    ∷ (".cc", "cpp")
    ∷ (".cxx", "cpp")
    ∷ (".hpp", "cpp")
    ∷ (".hxx", "cpp")
    ∷ (".cs", "csharp")
    ∷ (".php", "php")
    ∷ (".rb", "ruby")
    ∷ (".sh", "bash")
    ∷ (".bash", "bash")
    ∷ (".html", "html")
    ∷ (".htm", "html")
    ∷ (".css", "css")
    ∷ (".scss", "css")
    ∷ (".json", "json")
    ∷ (".yaml", "yaml")
    ∷ (".yml", "yaml")
    ∷ []

-- `LANG_MAP.get(ext, "unknown")`.
abbrev pub lang_of : String → List (String × String) → String
lang_of ext [] = "unknown"
lang_of ext (entry ∷ entries) = if str_eq entry.0 ext then entry.1 else lang_of ext entries

abbrev pub detect_lang : (List ℕ → String) → List ℕ → String
detect_lang extension path = lang_of (extension path) lang_map
