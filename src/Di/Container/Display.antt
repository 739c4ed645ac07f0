-- ===== src/Di/Container/Display.antt =====
-- `Display` of `DependencyGraph` in crates/stano-di/src/container.rs, as the list of its lines.
use Prim.Native.String.{◌++◌ as ◌+++◌}
use modular_rust_platform.Base.{String, List, [], ◌∷◌, ◌++◌, map}
use modular_rust_platform.Di.Container.{Container, dependency_graph}

dependency_line : String → String
dependency_line dep = "  └─ " +++ dep

graph_lines : List (String × List String) → List String
unfolding dependency_line
graph_lines [] = []
graph_lines ((name, deps) ∷ nodes) = name ∷ (map dependency_line deps ++ graph_lines nodes)

pub display_graph : Container → List String
unfolding graph_lines
display_graph c = graph_lines (dependency_graph c)
