-- ===== src/NodeId/Tests.antt =====
-- The theorem on the text of a NodeID at sixteen bytes, printed with braces.
use robotraconteur_pyodide.Prelude.{◌≡◌, refl, [], ◌∷◌, inl, arith}
use robotraconteur_pyodide.Outcome.{ok, bind}
use robotraconteur_pyodide.Message.V2.Sample.{id}
use robotraconteur_pyodide.NodeId.Text.{init_from_string, to_string}
use robotraconteur_pyodide.NodeId.RoundTrip.{uuid_format, init_from_string-to_string}

init_from_string-to_string_example :
    bind (to_string uuid_format (b'B' ∷ []) (id 200)) init_from_string ≡ ok (id 200)
init_from_string-to_string_example =
    init_from_string-to_string uuid_format (id 200) (b'B' ∷ [])
      (record { prints = λ i size h. refl }) refl (ground arith) (inl refl)
