-- ===== src/Api/Routing.antt =====
-- Every method of the client meets the route of the Host that it is for.
pub mod Ids
pub mod Account
pub mod Classrooms
pub mod Work
pub mod Content
pub mod Query
pub mod Proper
pub mod All
