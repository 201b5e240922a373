-- ===== src/TreeEditing/Delete/Requests.antt =====
-- The requests that a deletion sends (web/app.js).
use new_a.Common.{List, [], ◌∷◌, ◌++◌, Text, codes}
use new_a.ProjectTree.{Kind, construction, object, estimate}
use new_a.TreeEditing.{ApiRequest, delete_at, Workspace, Ends}
use new_a.TreeEditing.Delete.Removal.{estimate_log}

-- The log after a confirmed deletion of a node.
abbrev pub node_log : Ends → Kind → Text → Workspace → List ApiRequest
node_log ends construction id w = w.requests ++ delete_at (codes "/api/constructions/" ++ id) ∷ []
node_log ends object id w = w.requests ++ delete_at (codes "/api/objects/" ++ id) ∷ []
node_log ends estimate id w = estimate_log ends id w
node_log ends _ id w = w.requests
