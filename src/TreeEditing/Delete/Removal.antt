-- ===== src/TreeEditing/Delete/Removal.antt =====
-- The requests that `removeEstimatePermanently` (web/app.js) sends.
use new_a.Common.{
  ℕ, Bool, true, false, List, [], ◌∷◌, ◌++◌, map, Option, none, some, if◌then◌else◌, Text, has,
  find_index, ◌===◌, ◌≡◌, refl, sym, ◌∙◌, inl, inr, Bool-cases, append-nil, append_assoc,
}
use new_a.EstimateLocks.{Client, open_key}
use new_a.TreeEditing.{
  ApiRequest, delete_at, Workspace, Ends, Step, remove_estimate_permanently, send, send_if,
  releases, remove_open, lock_path, estimate_path, request_delete, after_parse, after_persist,
  after_delete, close_at, refresh_with, synced,
}

abbrev is_none : Option Text → Bool
is_none none = true
is_none (some problem) = false

-- Where the deletion of an estimate stands when its request is due: an open estimate was parsed and
-- saved, or that threw.
abbrev saved : Ends → Text → Workspace → Step
saved ends id w =
    if has (map open_key w.client.open_estimates) id
    then (if is_none ends.draft_parsed then ends.persist (synced id w) else (w, ends.draft_parsed))
    else (w, none)

-- The release of the lock of an estimate that is still open.
abbrev release_of : Option ℕ → Text → Client → List ApiRequest
release_of none id c = []
release_of (some i) id c =
    if releases id (remove_open i c) then delete_at (lock_path id) ∷ [] else []

-- The deletion of an estimate, and the release of its lock where that succeeds.
abbrev removal : Ends → Text → Client → List ApiRequest
removal ends id c =
    delete_at (estimate_path id)
    ∷ (if is_none ends.deleted
        then release_of (find_index (λ e. e.id === id) c.open_estimates) id c
        else [])

-- The log after the deletion of an estimate: that of saving it, and the removal where saving did not
-- throw.
abbrev log_of : Step → Ends → Text → List ApiRequest
log_of (w, none) ends id = w.requests ++ removal ends id w.client
log_of (w, some problem) ends id = w.requests

abbrev pub estimate_log : Ends → Text → Workspace → List ApiRequest
estimate_log ends id w = log_of (saved ends id w) ends id

pub requests-refresh :
    (problem : Option Text) (ends : Ends) (w : Workspace)
    → ((refresh_with problem ends.fetched_tree w).0).requests ≡ w.requests
requests-refresh none ends w = refl
requests-refresh (some problem) ends w = refl

send_if_lem :
    (b : Bool) (r : ApiRequest) (w : Workspace)
    → (send_if b r w).requests ≡ w.requests ++ (if b then r ∷ [] else [])
send_if_lem true r w = refl
send_if_lem false r w = sym (append-nil w.requests)

requests-close_at :
    (o : Option ℕ) (id : Text) (w : Workspace)
    → (close_at o id w).requests ≡ w.requests ++ release_of o id w.client
unfolding remove_estimate_permanently
requests-close_at none id w = sym (append-nil w.requests)
requests-close_at (some i) id w =
    send_if_lem (releases id (remove_open i w.client)) (delete_at (lock_path id)) w

requests-after_delete :
    (o : Option Text) (ends : Ends) (id : Text) (w : Workspace)
    → ((after_delete o ends id w).0).requests
      ≡ w.requests
        ++ (if is_none o
            then release_of (find_index (λ e. e.id === id) w.client.open_estimates) id w.client
            else [])
unfolding remove_estimate_permanently
requests-after_delete (some problem) ends id w = sym (append-nil w.requests)
requests-after_delete none ends id w =
    requests-refresh ends.fetched ends _
    ∙ requests-close_at (find_index (λ e. e.id === id) w.client.open_estimates) id w

requests-request_delete :
    (ends : Ends) (id : Text) (w : Workspace)
    → ((request_delete ends id w).0).requests ≡ w.requests ++ removal ends id w.client
requests-request_delete ends id w =
    requests-after_delete ends.deleted ends id (send (delete_at (estimate_path id)) w)
    ∙ append_assoc w.requests (delete_at (estimate_path id) ∷ []) (
        if is_none ends.deleted
        then release_of (find_index (λ e. e.id === id) w.client.open_estimates) id w.client
        else [])

requests-after_persist :
    (s : Step) (ends : Ends) (id : Text) → ((after_persist s ends id).0).requests ≡ log_of s ends id
requests-after_persist (w, some problem) ends id = refl
requests-after_persist (w, none) ends id = requests-request_delete ends id w

requests-after_parse :
    (o : Option Text) (ends : Ends) (id : Text) (w : Workspace)
    → ((after_parse o ends id w).0).requests
      ≡ log_of (if is_none o then ends.persist (synced id w) else (w, o)) ends id
requests-after_parse (some problem) ends id w = refl
requests-after_parse none ends id w = requests-after_persist (ends.persist (synced id w)) ends id

pub requests-remove_estimate_permanently :
    (ends : Ends) (id : Text) (w : Workspace)
    → ((remove_estimate_permanently ends id w).0).requests ≡ estimate_log ends id w
unfolding remove_estimate_permanently
requests-remove_estimate_permanently ends id w =
    elim (Bool-cases (has (map open_key w.client.open_estimates) id)) [
      | inl h ↦ rw h (requests-after_parse ends.draft_parsed ends id w)
      | inr h ↦ rw h (requests-request_delete ends id w)
    ]
