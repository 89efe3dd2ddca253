-- ===== src/Http/Routes.antt =====
-- `routeTable` of internal/transport/http/routes.go, in its order, by the groups of its rows.
pub mod Laws
use boreas.Prelude.{String, true, false, List, [], ◌∷◌, ◌++◌}
use boreas.Http.Policy.{
  ApiRoute, api_route, access_public, access_authed, access_session, access_admin, access_viewer,
  access_operator, access_member, access_owner,
}

-- Health, statistics and change signals.
abbrev pub system_routes : List ApiRoute
system_routes =
    api_route "GET" "/api/v1/health" access_public "health" 0 ([]) false
    ∷ api_route "GET" "/api/v1/stats" access_authed "stats" 0 ([]) false
    ∷ api_route "GET" "/api/v1/events/stream" access_session "streamEvents" 0 ([]) false
    ∷ []

-- Sessions, pairing and API tokens.
abbrev pub auth_routes : List ApiRoute
auth_routes =
    api_route "POST" "/api/v1/auth/login" access_public "login" 0 (400 ∷ 401 ∷ []) false
    ∷ api_route "POST" "/api/v1/auth/pairing" access_session "startPairing" 201 ([]) true
    ∷ api_route "POST" "/api/v1/auth/pairing/claim" access_public "claimPairing" 0 (400 ∷ 401 ∷ [])
        false
    ∷ api_route "POST" "/api/v1/auth/pairing/stream" access_session "watchPairing" 0
        (400 ∷ 404 ∷ []) true
    ∷ api_route "POST" "/api/v1/auth/logout" access_authed "logout" 0 ([]) false
    ∷ api_route "GET" "/api/v1/auth/me" access_authed "me" 0 ([]) false
    ∷ api_route "PUT" "/api/v1/auth/me/avatar" access_session "setAvatar" 0 (400 ∷ 409 ∷ []) false
    ∷ api_route "GET" "/api/v1/auth/tokens" access_session "listAPITokens" 0 ([]) false
    ∷ api_route "POST" "/api/v1/auth/tokens" access_session "createAPIToken" 201 (400 ∷ []) false
    ∷ api_route "DELETE" "/api/v1/auth/tokens/{id}" access_session "revokeAPIToken" 0
        (400 ∷ 404 ∷ []) false
    ∷ []

-- Push subscriptions, users and registry credentials.
abbrev pub account_routes : List ApiRoute
account_routes =
    api_route "POST" "/api/v1/push/subscriptions" access_authed "subscribePush" 201 (400 ∷ []) true
    ∷ api_route "DELETE" "/api/v1/push/subscriptions/{token}" access_authed "unsubscribePush" 0
        (400 ∷ 404 ∷ []) true
    ∷ api_route "GET" "/api/v1/users" access_admin "listUsers" 0 ([]) false
    ∷ api_route "POST" "/api/v1/users" access_admin "createUser" 201 (400 ∷ 409 ∷ []) false
    ∷ api_route "PATCH" "/api/v1/users/{id}" access_admin "updateUser" 0 (400 ∷ 404 ∷ 409 ∷ [])
        false
    ∷ api_route "DELETE" "/api/v1/users/{id}" access_admin "deleteUser" 0 (400 ∷ 404 ∷ 409 ∷ [])
        false
    ∷ api_route "GET" "/api/v1/users/{id}/avatar" access_authed "getAvatar" 0 (400 ∷ 404 ∷ []) false
    ∷ api_route "GET" "/api/v1/registry-credentials" access_admin "listCredentials" 0 ([]) false
    ∷ api_route "POST" "/api/v1/registry-credentials" access_admin "createCredential" 201
        (400 ∷ 409 ∷ []) false
    ∷ api_route "DELETE" "/api/v1/registry-credentials/{id}" access_admin "deleteCredential" 0
        (400 ∷ 404 ∷ 409 ∷ []) false
    ∷ []

-- What anybody reads.
abbrev pub public_routes : List ApiRoute
public_routes =
    api_route "GET" "/api/v1/public/projects" access_public "publicProjects" 0 ([]) false
    ∷ api_route "GET" "/api/v1/public/events/stream" access_public "streamPublicEvents" 0 (503 ∷ [])
        false
    ∷ []

-- Projects and their members.
abbrev pub project_routes : List ApiRoute
project_routes =
    api_route "GET" "/api/v1/projects" access_authed "listProjects" 0 ([]) false
    ∷ api_route "POST" "/api/v1/projects" access_admin "createProject" 201 (400 ∷ 409 ∷ []) false
    ∷ api_route "GET" "/api/v1/projects/{project}" access_viewer "getProject" 0 ([]) false
    ∷ api_route "PATCH" "/api/v1/projects/{project}" access_owner "updateProject" 0 (400 ∷ []) false
    ∷ api_route "DELETE" "/api/v1/projects/{project}" access_owner "deleteProject" 0 (409 ∷ [])
        false
    ∷ api_route "GET" "/api/v1/projects/{project}/members" access_member "listMembers" 0 ([]) false
    ∷ api_route "POST" "/api/v1/projects/{project}/members" access_owner "addMember" 0
        (400 ∷ 409 ∷ []) false
    ∷ api_route "DELETE" "/api/v1/projects/{project}/members/{userID}" access_owner "removeMember" 0
        (400 ∷ 409 ∷ []) false
    ∷ []

-- Notifications.
abbrev pub notification_routes : List ApiRoute
notification_routes =
    api_route "GET" "/api/v1/notifications" access_authed "listNotifications" 0 (400 ∷ []) false
    ∷ api_route "POST" "/api/v1/notifications/seen" access_authed "markNotificationsSeen" 0
        (400 ∷ []) false
    ∷ api_route "GET" "/api/v1/projects/{project}/notifications" access_viewer "listNotifications" 0
        (400 ∷ []) false
    ∷ api_route "POST" "/api/v1/projects/{project}/notifications/{id}/seen" access_viewer
        "markNotificationSeen" 0 (400 ∷ []) false
    ∷ api_route "DELETE" "/api/v1/projects/{project}/notifications/{id}/seen" access_viewer
        "markNotificationUnseen" 0 (400 ∷ []) false
    ∷ []

-- The assistant.
abbrev pub bora_routes : List ApiRoute
bora_routes =
    api_route "POST" "/api/v1/bora/images" access_session "uploadBoraImage" 201 (400 ∷ 409 ∷ [])
      true
    ∷ api_route "GET" "/api/v1/bora/images/{id}" access_session "getBoraImage" 0 (400 ∷ 404 ∷ [])
        false
    ∷ api_route "POST" "/api/v1/bora/conversations" access_session "startConversation" 0
        (400 ∷ 404 ∷ 409 ∷ 429 ∷ []) true
    ∷ api_route "POST" "/api/v1/bora/conversations/{id}/messages" access_session "askConversation" 0
        (400 ∷ 404 ∷ 409 ∷ 429 ∷ []) true
    ∷ api_route "GET" "/api/v1/bora/conversations/{id}/stream" access_session "followConversation" 0
        (400 ∷ []) false
    ∷ api_route "POST" "/api/v1/bora/conversations/{id}/stop" access_session "stopConversation" 204
        (400 ∷ []) true
    ∷ api_route "GET" "/api/v1/bora/conversations" access_session "listConversations" 0 (400 ∷ [])
        false
    ∷ api_route "POST" "/api/v1/bora/conversations/search" access_session "searchConversations" 0
        (400 ∷ []) true
    ∷ api_route "GET" "/api/v1/bora/conversations/{id}" access_session "getConversation" 0
        (400 ∷ 404 ∷ []) false
    ∷ api_route "POST" "/api/v1/bora/conversations/{id}/messages/{index}/ran" access_session
        "addRan" 204 (400 ∷ 404 ∷ []) true
    ∷ api_route "DELETE" "/api/v1/bora/conversations/{id}" access_session "deleteConversation" 204
        (400 ∷ 404 ∷ []) true
    ∷ api_route "DELETE" "/api/v1/bora/conversations" access_session "deleteConversations" 0 ([])
        true
    ∷ []

-- Folders and tasks.
abbrev pub task_routes : List ApiRoute
task_routes =
    api_route "GET" "/api/v1/projects/{project}/folders" access_viewer "listFolders" 0 ([]) false
    ∷ api_route "GET" "/api/v1/projects/{project}/tasks" access_viewer "listTasks" 0 ([]) false
    ∷ api_route "POST" "/api/v1/projects/{project}/tasks" access_member "createTask" 201
        (400 ∷ 409 ∷ []) false
    ∷ api_route "GET" "/api/v1/projects/{project}/tasks/{name}" access_viewer "getTask" 0 ([]) false
    ∷ api_route "PATCH" "/api/v1/projects/{project}/tasks/{name}" access_member "updateTask" 0
        (400 ∷ 409 ∷ []) false
    ∷ api_route "DELETE" "/api/v1/projects/{project}/tasks/{name}" access_member "deleteTask" 0 ([])
        false
    ∷ api_route "POST" "/api/v1/projects/{project}/tasks/{name}/deploy" access_operator "deployTask"
        0 (400 ∷ 409 ∷ []) false
    ∷ api_route "POST" "/api/v1/projects/{project}/tasks/{name}/routes/check" access_member
        "checkRoute" 0 (400 ∷ []) false
    ∷ api_route "PUT" "/api/v1/projects/{project}/tasks/{name}/state" access_operator "updateState"
        0 (400 ∷ []) false
    ∷ api_route "PUT" "/api/v1/projects/{project}/tasks/{name}/build" access_operator "reportBuild"
        0 (400 ∷ []) false
    ∷ api_route "GET" "/api/v1/projects/{project}/tasks/{name}/logs" access_viewer "logs" 0
        (400 ∷ []) false
    ∷ api_route "GET" "/api/v1/projects/{project}/tasks/{name}/logs/stream" access_viewer
        "streamLogs" 0 (400 ∷ []) false
    ∷ []

-- Metrics, grants and assignees.
abbrev pub member_routes : List ApiRoute
member_routes =
    api_route "GET" "/api/v1/projects/{project}/metrics/stream" access_viewer "streamMetrics" 0 ([])
      false
    ∷ api_route "GET" "/api/v1/projects/{project}/tasks/{name}/metrics/stream" access_viewer
        "streamMetrics" 0 (409 ∷ []) false
    ∷ api_route "GET" "/api/v1/projects/{project}/tasks/{name}/grants" access_owner "listGrants" 0
        ([]) false
    ∷ api_route "POST" "/api/v1/projects/{project}/tasks/{name}/grants" access_owner "grantTask" 0
        (400 ∷ []) false
    ∷ api_route "DELETE" "/api/v1/projects/{project}/tasks/{name}/grants/{userID}" access_owner
        "revokeGrant" 0 (400 ∷ []) false
    ∷ api_route "PUT" "/api/v1/projects/{project}/tasks/{name}/assignees" access_member
        "setAssignees" 0 (400 ∷ 409 ∷ []) false
    ∷ []

abbrev pub route_table : List ApiRoute
route_table =
    system_routes ++ auth_routes ++ account_routes ++ public_routes ++ project_routes
    ++ notification_routes ++ bora_routes ++ task_routes ++ member_routes
