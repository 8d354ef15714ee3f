-- ===== src/Access/Routes.antt =====
-- app/api/admin/grants and app/api/access/requests: the handlers of grants and requests.
pub mod Replies
pub mod Checks
pub mod Grants
pub mod Requests
