-- ===== src/ConnectToDb/Types.antt =====
-- The documents of main/testConnections.go (lines 11 to 45), what the program prints, and the
-- store's driver.
use cmpt436chat_client.Prelude.{ℕ, Bool, List, Option}
use cmpt436chat_client.Text.{Text}

-- bson.ObjectId is a string.
abbrev pub ObjectId : Type 0
ObjectId = Text

pub record Contact : Type 0 where
  pub id : ObjectId
  pub name : Text
  pub phone : Text
  pub email : Text
  pub is_real_user : Bool
  pub timestamp : ℕ

-- The numbers that a group points at are numbers of a store.
mutual
  pub data User : Type 0 where
    user : ObjectId → Text → Text → Text → Bool → Groups → List Contact → ℕ → User

  pub data Groups : Type 0 where
    nil : Groups
    cons : Group → Groups → Groups

  pub data Group : Type 0 where
    group : ObjectId → Text → Users → List ℕ → List ℕ → Group

  pub data Users : Type 0 where
    nobody : Users
    also : User → Users → Users

pub record Comment : Type 0 where
  pub id : ObjectId
  pub user_name : Text
  pub subject : Text
  pub content : Text
  pub timestamp : ℕ

abbrev pub id_of : User → ObjectId
id_of (user id name phone email is_real_user groups contacts timestamp) = id

abbrev pub contacts_of : User → List Contact
contacts_of (user id name phone email is_real_user groups contacts timestamp) = contacts

-- bson.M{"name": …} and bson.M{"_id": …}.
pub data Query : Type 0 where
  by_name : Text → Query
  by_id : ObjectId → Query

-- bson.M{"$push": bson.M{"contacts": …}}.
pub data Change : Type 0 where
  push_contact : Contact → Change

-- Which fields a lookup asks for: all, or those of bson.M{"_id": 1}.
pub data Fields : Type 0 where
  whole id_only : Fields

pub record Index : Type 0 where
  pub key : List Text
  pub unique : Bool
  pub drop_dups : Bool
  pub background : Bool
  pub sparse : Bool

-- What the program hands to fmt.Println.
pub data Shown : Type 0 where
  text : Text → Shown
  contact : Contact → Shown
  whole_user : User → Shown
  query : Query → Shown
  change : Change → Shown

abbrev pub Error : Type 0
Error = Text

-- The driver of the store, which is a library's: what each call answers and makes of the world `D`.
-- The calls on a collection take its name; One takes the value that it may fill in, and gives that
-- value back.
pub record Driver (D : Type 0) : Type 0 where
  pub dial : Text → D → Option Error × D
  pub close : D → D
  pub set_mode : D → D
  pub drop_database : Text → D → Option Error × D
  pub ensure_index : Text → Index → D → Option Error × D
  pub insert_user : Text → User → D → Option Error × D
  pub insert_contact : Text → Contact → D → Option Error × D
  pub one_contact : Text → Query → Contact → D → Option Error × Contact × D
  pub one_user : Text → Query → Fields → User → D → Option Error × User × D
  pub update : Text → Query → Change → D → Option Error × D
  pub now : D → ℕ × D
  pub hex : ObjectId → Text
