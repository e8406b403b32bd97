-- ===== src/Storage.antt =====
-- The database of src/storage: its tables, the queries on them and the repositories.
pub mod Rows
pub mod ContactQueries
pub mod ConversationQueries
pub mod ContactRepository
pub mod ConversationRepository
pub mod DirectMessages
pub mod Invites
pub mod ChatQueries
pub mod ChatRepository
pub mod MessageLog
pub mod SessionQueries
pub mod SessionRepository
pub mod LevelViews
pub mod RequestViews
pub mod SocialGraph
